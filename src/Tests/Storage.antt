-- ===== src/Tests/Storage.antt =====
-- The storage's theorems on contents with one pool.
use uniswapv3_tick_state.Prelude.{
  Bool, true, false, ℕ, ◌≡◌, refl, ap, ◌∙◌, Option, none, some, List, [], ◌∷◌, if◌then◌else◌, ℤ,
  pos, negsuc, arith,
}
use uniswapv3_tick_state.Result.{ok}
use uniswapv3_tick_state.Address.{addr_eqb_refl}
use uniswapv3_tick_state.TickKey.{max_tick}
use uniswapv3_tick_state.Types.{TickState, PoolState}
use uniswapv3_tick_state.Db.Contract.{View, ListsTicks, pool_of, at_tick, with_pool, without_pool}
use uniswapv3_tick_state.DbWrap
use uniswapv3_tick_state.DbWrap.Contents.{view_of, IsWellFormed}
use uniswapv3_tick_state.DbWrap.Reads.{get_pool_state_lem}
use uniswapv3_tick_state.DbWrap.Writes.{
  set_tick_state_lem, set_pool_state_lem, delete_pool_state_lem,
}
use uniswapv3_tick_state.DbWrap.Pools.{
  pool, get_pool_state-set_pool_state, get_tick_states-delete_pool_state,
}
use uniswapv3_tick_state.Samples.Memory.{Entries, find, memory, memory-EngineLaws, byte_addresses}
use uniswapv3_tick_state.Samples.Stored.{empty_wf, one_pool, one_pool_wf}

abbrev view : Entries → View ℕ
view s = view_of byte_addresses (find s)

abbrev ticks : List TickState
ticks = at_tick (negsuc 59) (pos 5) ∷ at_tick (pos 60) (negsuc 4) ∷ []

abbrev snapshot : PoolState
snapshot = pool none none 100 (pos 60) (pos 7) ticks

get_pool_state_lem_example :
    (ts : List TickState) × (DbWrap.get_pool_state byte_addresses memory 7 one_pool
      ≡ (ok (pool_of byte_addresses (view one_pool) 7 ts), one_pool))
    × ListsTicks byte_addresses (view one_pool) 7 ts
unfolding memory-EngineLaws
get_pool_state_lem_example =
    get_pool_state_lem byte_addresses memory memory-EngineLaws 7 one_pool one_pool_wf

set_pool_state_lem_example :
    ((DbWrap.set_pool_state byte_addresses memory 7 snapshot one_pool).0 ≡ ok tt)
    × IsWellFormed byte_addresses
        (find (DbWrap.set_pool_state byte_addresses memory 7 snapshot one_pool).1)
    × (view (DbWrap.set_pool_state byte_addresses memory 7 snapshot one_pool).1
        ≡ with_pool byte_addresses 7 snapshot (view one_pool))
unfolding memory-EngineLaws
set_pool_state_lem_example =
    set_pool_state_lem byte_addresses memory memory-EngineLaws 7 snapshot one_pool one_pool_wf
      (omega arith, (omega arith, tt))

delete_pool_state_lem_example :
    ((DbWrap.delete_pool_state byte_addresses memory 7 one_pool).0 ≡ ok tt)
    × IsWellFormed byte_addresses
        (find (DbWrap.delete_pool_state byte_addresses memory 7 one_pool).1)
    × (view (DbWrap.delete_pool_state byte_addresses memory 7 one_pool).1
        ≡ without_pool byte_addresses 7 (view one_pool))
unfolding memory-EngineLaws
delete_pool_state_lem_example =
    delete_pool_state_lem byte_addresses memory memory-EngineLaws 7 one_pool one_pool_wf

no_tick : (b : Bool) → ◌≡◌ {A = Option ℤ} (if b then none else none) none
no_tick true = refl
no_tick false = refl

empty_fresh : (k : ℤ) → (view []).tick 7 k ≡ none
unfolding find
empty_fresh k = no_tick _

-- Nothing is stored before.
get_pool_state-set_pool_state_example :
    (DbWrap.get_pool_state byte_addresses memory 7
      (DbWrap.set_pool_state byte_addresses memory 7 snapshot []).1).0
    ≡ ok (some snapshot)
unfolding memory-EngineLaws
get_pool_state-set_pool_state_example =
    get_pool_state-set_pool_state byte_addresses memory memory-EngineLaws 7 none none 100 (pos 60)
      (pos 7) ticks [] empty_wf empty_fresh (omega arith) (omega arith) (omega arith) (omega arith)
      (omega arith, tt) (refl, (refl, tt))

abbrev top_stored : Entries
top_stored = (DbWrap.set_tick_state byte_addresses memory 7 (at_tick max_tick (pos 5)) []).1

top_stored_wf : IsWellFormed byte_addresses (find top_stored)
unfolding memory-EngineLaws
top_stored_wf =
    (set_tick_state_lem byte_addresses memory memory-EngineLaws 7 (at_tick max_tick (pos 5)) []
      empty_wf (omega arith)).1

top_found : (view top_stored).tick 7 max_tick ≡ some (pos 5)
unfolding memory-EngineLaws
top_found =
    ap (λ v. v.tick 7 max_tick)
      (set_tick_state_lem byte_addresses memory memory-EngineLaws 7 (at_tick max_tick (pos 5)) []
        empty_wf (omega arith)).2
    ∙ rw (addr_eqb_refl byte_addresses 7) refl

get_tick_states-delete_pool_state_example :
    DbWrap.get_tick_states byte_addresses memory 7
      (DbWrap.delete_pool_state byte_addresses memory 7 top_stored).1
    ≡ (
      ok (at_tick max_tick (pos 5) ∷ []),
      (DbWrap.delete_pool_state byte_addresses memory 7 top_stored).1,
    )
unfolding memory-EngineLaws
get_tick_states-delete_pool_state_example =
    get_tick_states-delete_pool_state byte_addresses memory memory-EngineLaws 7 (pos 5) top_stored
      top_stored_wf top_found
