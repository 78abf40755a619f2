-- ===== src/Tests/Ranges.antt =====
-- The ranges' theorems on a pool with three ticks.
use uniswapv3_tick_state.Prelude.{
  ℕ, ◌<◌, ◌≤◌, ◌^◌, ◌≡◌, ◌&&◌, refl, not, if◌then◌else◌, Option, none, some, List, [], ◌∷◌, ℤ, pos,
  negsuc, arith, ltb_ℤ, ◌<ℤ◌, ◌≤ℤ◌, All,
}
use uniswapv3_tick_state.Types.{TickState}
use uniswapv3_tick_state.Db.Contract.{at_tick}
use uniswapv3_tick_state.Liquidity.{RangeLiquidity, build_range_liquidity_array}
use uniswapv3_tick_state.Liquidity.Ranges.{liquidity_in, liquidity_at, first_tick, last_tick}
use uniswapv3_tick_state.Liquidity.Build.{liquidity_in-build}

abbrev pub ticks : List TickState
ticks = at_tick (negsuc 19) (pos 5) ∷ at_tick (pos 0) (pos 3) ∷ at_tick (pos 25) (negsuc 7) ∷ []

abbrev ranges : List RangeLiquidity
ranges =
    record { tick_lower = negsuc 19; tick_upper = pos 0; liquidity = pos 5 }
    ∷ record { tick_lower = pos 0; tick_upper = pos 25; liquidity = pos 8 }
    ∷ []

build_run : build_range_liquidity_array ticks ≡ ranges
unfolding build_range_liquidity_array uniswapv3_tick_state.Prelude.◌+ℤ◌
build_run = refl

liquidity_in-build_example : liquidity_in (pos 3) (build_range_liquidity_array ticks) ≡ (
    if not (ltb_ℤ (pos 3) (first_tick ticks)) && ltb_ℤ (pos 3) (last_tick ticks)
    then some (liquidity_at (pos 3) ticks)
    else none)
liquidity_in-build_example = liquidity_in-build (pos 3) ticks (omega arith, (omega arith, tt))
