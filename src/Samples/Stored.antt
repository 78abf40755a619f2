-- ===== src/Samples/Stored.antt =====
-- Contents with one pool: the pool at address 7 has reached height 100.
use uniswapv3_tick_state.Prelude.{ℕ, ◌≡◌, ap, ◌∙◌, [], pos, if◌then◌else◌, arith}
use uniswapv3_tick_state.Result.{err, Action, pair_not_found}
use uniswapv3_tick_state.Address.{addr_eqb_refl}
use uniswapv3_tick_state.Types.{Event, EventType, PoolState}
use uniswapv3_tick_state.Db.{Db}
use uniswapv3_tick_state.Db.Contract.{DbLaws}
use uniswapv3_tick_state.Bytes.{bytes_eqb}
use uniswapv3_tick_state.DbWrap
use uniswapv3_tick_state.DbWrap.{new_db}
use uniswapv3_tick_state.DbWrap.Contents.{view_of, IsWellFormed}
use uniswapv3_tick_state.DbWrap.Writes.{set_height_lem}
use uniswapv3_tick_state.DbWrap.Refines.{new_db-DbLaws}
use uniswapv3_tick_state.Samples.Memory.{Entries, find, memory, memory-EngineLaws, byte_addresses}

pub empty_wf : IsWellFormed byte_addresses (find [])
unfolding find
empty_wf = record {
  finish_wf = tt;
  height_wf = λ a. tt;
  current_wf = λ a. tt;
  spacing_wf = λ a. tt;
  tick_wf = λ r. tt;
}

abbrev pub one_pool : Entries
one_pool = (DbWrap.set_height byte_addresses memory 7 100 []).1

pub one_pool_wf : IsWellFormed byte_addresses (find one_pool)
unfolding memory-EngineLaws
one_pool_wf =
    (set_height_lem byte_addresses memory memory-EngineLaws 7 100 [] empty_wf (omega arith)).1

pub one_pool_height : (view_of byte_addresses (find one_pool)).height 7 ≡ 100
unfolding memory-EngineLaws
one_pool_height =
    ap (λ v. v.height 7)
      (set_height_lem byte_addresses memory memory-EngineLaws 7 100 [] empty_wf (omega arith)).2
    ∙ ap (λ q. if q then 100 else (view_of byte_addresses (find [])).height 7)
        (addr_eqb_refl byte_addresses 7)

pub other_pool_height : (view_of byte_addresses (find one_pool)).height 9 ≡ 0
unfolding memory-EngineLaws find bytes_eqb
other_pool_height =
    ap (λ v. v.height 9)
      (set_height_lem byte_addresses memory memory-EngineLaws 7 100 [] empty_wf (omega arith)).2

abbrev pub db : Db ℕ
db = new_db byte_addresses memory

abbrev pub laws : DbLaws byte_addresses db
laws = new_db-DbLaws byte_addresses memory memory-EngineLaws

-- a pool that is not stored is none of ours
abbrev pub no_pool : ℕ → Action Entries PoolState
no_pool a s = (err pair_not_found, s)

abbrev pub event : EventType → ℕ → Event ℕ
event k a = record {
  address = a;
  type = k;
  tick_lower = pos 10;
  tick_upper = pos 20;
  amount = pos 5;
  tick = pos 15;
}

abbrev pub mint_event : Event ℕ
mint_event = event EventType.mint 7

abbrev pub swap_event : Event ℕ
swap_event = event EventType.swap 7
