-- ===== src/Api/Window.antt =====
-- What a request for token amounts sees of a pool's liquidity.
use uniswapv3_tick_state.Prelude.{
  ℕ, ◌≡◌, refl, ◌∙◌, true, false, not, ◌&&◌, Option, none, some, List, ℤ, pos, ◌<ℤ◌, ◌≤ℤ◌, ltb_ℤ,
  to_int32, if◌then◌else◌, All,
}
use uniswapv3_tick_state.Result.{ok}
use uniswapv3_tick_state.Types.{PoolState, big_int64}
use uniswapv3_tick_state.Db.Contract.{Ascend}
use uniswapv3_tick_state.Liquidity.{
  RangeLiquidity, build_range_liquidity_array, filter_range_liquidity_array, calculate_tick_range,
}
use uniswapv3_tick_state.Liquidity.Ranges.{liquidity_in, liquidity_at, first_tick, last_tick}
use uniswapv3_tick_state.Liquidity.Build.{liquidity_in-build}
use uniswapv3_tick_state.Liquidity.Filter.{liquidity_in-filter}
use uniswapv3_tick_state.Liquidity.Split.{Splits, liquidity_in-split}
use uniswapv3_tick_state.Api.{ranges_of}

-- The pool's liquidity at a tick between its first and its last.
abbrev pub pool_liquidity : ℤ → PoolState → Option ℤ
pool_liquidity n p =
    if not (ltb_ℤ n (first_tick p.tick_states)) && ltb_ℤ n (last_tick p.tick_states)
    then some (liquidity_at n p.tick_states)
    else none

module _ (fuel : ℕ) (tick_offset : ℕ) (p : PoolState) (from_tick to_tick : ℤ)
    (window : calculate_tick_range
        (to_int32 (big_int64 p.global.tick))
        (to_int32 (pos tick_offset))
        (to_int32 (big_int64 p.global.tick_spacing))
      ≡ ok (from_tick, to_tick))
    (ascend : Ascend p.tick_states) where
  -- For a pool with ascending ticks, the ranges of token amounts give at every tick of the window
  -- that CalculateTickRange returned the liquidity of the pool there: none before its first tick and
  -- from its last one on, elsewhere the net liquidity of all ticks up to it.
  pub ranges_of_lem :
      (n : ℤ)
      → from_tick ≤ℤ n
      → n <ℤ to_tick
      → (rs : List RangeLiquidity) × (ranges_of fuel false tick_offset p ≡ ok (some rs))
        × (liquidity_in n rs ≡ pool_liquidity n p)
  unfolding ranges_of
  ranges_of_lem n lo hi = (
    filter_range_liquidity_array (build_range_liquidity_array p.tick_states) from_tick to_tick,
    rw window refl,
    liquidity_in-filter n from_tick to_tick _ lo hi ∙ liquidity_in-build n p.tick_states ascend,
  )

  -- For a pool with ascending ticks and a positive spacing, the ranges of token amounts in detail
  -- give the same liquidity at every tick of the window, where the bounds of the ranges that reach
  -- into it leave room for the spacing on int32; splitting them ends, on more fuel than the longest
  -- of them is long.
  pub ranges_of-detail :
      (n : ℤ)
      → from_tick ≤ℤ n
      → n <ℤ to_tick
      → pos 0 <ℤ to_int32 (big_int64 p.global.tick_spacing)
      → All (Splits fuel (to_int32 (big_int64 p.global.tick_spacing))) (
          filter_range_liquidity_array
            (build_range_liquidity_array p.tick_states)
            from_tick
            to_tick)
      → (rs : List RangeLiquidity) × (ranges_of fuel true tick_offset p ≡ ok (some rs))
        × (liquidity_in n rs ≡ pool_liquidity n p)
  unfolding ranges_of
  ranges_of-detail n lo hi positive room =
      let filtered =
        filter_range_liquidity_array (build_range_liquidity_array p.tick_states) from_tick
          to_tick in
      let (pieces, runs, same) =
        liquidity_in-split fuel (to_int32 (big_int64 p.global.tick_spacing)) filtered positive
          room in
      (
        filter_range_liquidity_array pieces from_tick to_tick,
        rw (window, runs) refl,
        liquidity_in-filter n from_tick to_tick pieces lo hi
            ∙ same n
            ∙ liquidity_in-filter n from_tick to_tick _ lo hi
            ∙ liquidity_in-build n p.tick_states ascend,
      )
