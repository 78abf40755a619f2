-- ===== src/Db.antt =====
-- The interface `DB` of db_wrap.go, through which the rest of the program reads and writes pools,
-- and the contract that its implementation keeps.
pub mod Contract
pub mod Unique
pub mod Only
use uniswapv3_tick_state.Prelude.{ℕ, Option, List, ℤ}
use uniswapv3_tick_state.Result.{Action}
use uniswapv3_tick_state.Types.{TickState, PoolState}

pub record Db (Address : Type 0) : Type 1 where
  pub State : Type 0
  pub set_finish_height : ℕ → Action State (Unit {0})
  pub get_finish_height : Action State ℕ
  pub set_tick_state : Address → TickState → Action State (Unit {0})
  pub get_tick_state : Address → ℤ → Action State (Option TickState)
  pub get_tick_states : Address → Action State (List TickState)
  pub set_current_tick : Address → ℤ → Action State (Unit {0})
  pub get_current_tick : Address → Action State ℤ
  pub set_tick_spacing : Address → ℤ → Action State (Unit {0})
  pub get_tick_spacing : Address → Action State ℤ
  pub set_height : Address → ℕ → Action State (Unit {0})
  pub get_height : Address → Action State ℕ
  pub get_pool_state : Address → Action State (Option PoolState)
  pub set_pool_state : Address → PoolState → Action State (Unit {0})
  pub delete_pool_state : Address → Action State (Unit {0})
