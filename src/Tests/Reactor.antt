-- ===== src/Tests/Reactor.antt =====
-- The reactor's theorems at one stored pool, and an event of a pool that is none of ours.
use uniswapv3_tick_state.Prelude.{
  if◌then◌else◌, ℕ, ◌<◌, ◌≡◌, refl, sym, ap, ◌∙◌, Option, none, some, List, [], ◌∷◌, ℤ, pos, neg,
  ◌+ℤ◌, u64_mod, All, arith, eqb_ℤ,
}
use uniswapv3_tick_state.Result.{Result, ok}
use uniswapv3_tick_state.Types.{Event, EventType, BlockEvent}
use uniswapv3_tick_state.Db.Contract.{View, DbLaws, with_finish, with_height}
use uniswapv3_tick_state.DbWrap.Refines.{new_db-DbLaws}
use uniswapv3_tick_state.Samples.Memory.{Entries, memory-EngineLaws, byte_addresses}
use uniswapv3_tick_state.Samples.Stored.{
  empty_wf, one_pool, one_pool_wf, one_pool_height, db, laws, no_pool, event, mint_event,
  swap_event,
}
use uniswapv3_tick_state.Reactor.{react_event, react_block_event}
use uniswapv3_tick_state.Reactor.Spec.{net, apply_event, apply_all}
use uniswapv3_tick_state.Reactor.Blocks.{
  block_of, react_block_event_lem, react_block_event_twice, react_block_event_same_pool,
}
use uniswapv3_tick_state.Reactor.Ticks.{at_bound, react_mint_lem, react_burn-mint}

abbrev pub view : Entries → View ℕ
view s = DbLaws.view laws s

pub wf : DbLaws.IsWf laws one_pool
unfolding new_db-DbLaws memory-EngineLaws
wf = one_pool_wf

pub nothing-IsWf : DbLaws.IsWf laws []
unfolding new_db-DbLaws memory-EngineLaws
nothing-IsWf = empty_wf

height_100 : (view one_pool).height 7 ≡ 100
unfolding new_db-DbLaws memory-EngineLaws
height_100 = one_pool_height

pub positive : 0 < (view one_pool).height 7
positive = rw height_100 (omega arith)

abbrev run : ℕ → List (Event ℕ) → Entries → Result (Unit {0}) × Entries
run h es s = react_block_event db no_pool (block_of h es) s

react_block_event_lem_example :
    ((run 200 (mint_event ∷ swap_event ∷ []) one_pool).0 ≡ ok tt)
    × DbLaws.IsWf laws (run 200 (mint_event ∷ swap_event ∷ []) one_pool).1
    × (view (run 200 (mint_event ∷ swap_event ∷ []) one_pool).1
        ≡ with_finish byte_addresses 200
            (apply_all byte_addresses 200 (mint_event ∷ swap_event ∷ []) (view one_pool)))
react_block_event_lem_example =
    react_block_event_lem byte_addresses db laws no_pool 200 (mint_event ∷ swap_event ∷ []) one_pool
      wf (omega arith) (omega arith) ((tt, positive), ((tt, positive), tt))

react_block_event_twice_example :
    let s1 = (run 200 (mint_event ∷ swap_event ∷ []) one_pool).1 in
    ((run 200 (mint_event ∷ swap_event ∷ []) s1).0 ≡ ok tt)
    × (view (run 200 (mint_event ∷ swap_event ∷ []) s1).1 ≡ view s1)
react_block_event_twice_example =
    react_block_event_twice byte_addresses db laws no_pool 200 (mint_event ∷ swap_event ∷ [])
      one_pool wf (omega arith) (omega arith) ((tt, positive), ((tt, positive), tt))

below_200 : (view one_pool).height 7 < 200
below_200 = rw height_100 (omega arith)

-- The swap behind the mint is lost.
react_block_event_same_pool_example :
    view (run 200 (mint_event ∷ swap_event ∷ []) one_pool).1
    ≡ with_finish byte_addresses 200
        (with_height byte_addresses 7 200 (apply_event byte_addresses mint_event (view one_pool)))
react_block_event_same_pool_example =
    react_block_event_same_pool byte_addresses db laws no_pool 200 mint_event (swap_event ∷ [])
      one_pool wf (omega arith) ((tt, positive), ((tt, positive), tt)) below_200 (refl, tt)

-- Nothing is stored, so that the height of every pool reads 0.
react_mint_lem_example :
    ((react_event db no_pool mint_event one_pool).0 ≡ ok tt)
    × (net byte_addresses (view (react_event db no_pool mint_event one_pool).1) 7 (pos 20)
        ≡ net byte_addresses (view one_pool) 7 (pos 20)
          +ℤ at_bound (eqb_ℤ (pos 10) (pos 20)) (pos 5)
          +ℤ at_bound (eqb_ℤ (pos 20) (pos 20)) (neg (pos 5)))
unfolding uniswapv3_tick_state.Prelude.to_int32 neg uniswapv3_tick_state.Types.big_int64
react_mint_lem_example =
    react_mint_lem byte_addresses db laws no_pool mint_event one_pool (pos 20) wf refl

react_burn-mint_example :
    net byte_addresses
      (view
        (react_event db no_pool
          (event EventType.burn 7)
          (react_event db no_pool mint_event one_pool).1).1)
      7
      (pos 10)
    ≡ net byte_addresses (view one_pool) 7 (pos 10)
react_burn-mint_example =
    react_burn-mint byte_addresses db laws no_pool mint_event one_pool (pos 10) wf refl
