-- ===== src/Liquidity/Filter.antt =====
-- `FilterRangeLiquidityArray` keeps what the window needs.
use uniswapv3_tick_state.Prelude.{
  ◌≡◌, refl, true, inl, inr, List, [], ◌∷◌, ℤ, ◌<ℤ◌, ◌≤ℤ◌, Bool-cases, All, arith,
}
use uniswapv3_tick_state.Liquidity.{RangeLiquidity, filter_range_liquidity_array, keeps}
use uniswapv3_tick_state.Liquidity.Ranges.{contains, liquidity_in}

kept_contains :
    (n from_tick to_tick : ℤ) (r : RangeLiquidity)
    → from_tick ≤ℤ n
    → n <ℤ to_tick
    → contains r n ≡ true
    → keeps from_tick to_tick r ≡ true
kept_contains n from_tick to_tick r lo hi h = ground arith

-- Inside the window the filtered ranges give the liquidity that all ranges give.
pub liquidity_in-filter :
    (n from_tick to_tick : ℤ) (rs : List RangeLiquidity)
    → from_tick ≤ℤ n
    → n <ℤ to_tick
    → liquidity_in n (filter_range_liquidity_array rs from_tick to_tick) ≡ liquidity_in n rs
unfolding filter_range_liquidity_array
liquidity_in-filter n from_tick to_tick [] lo hi = refl
liquidity_in-filter n from_tick to_tick (r ∷ rs) lo hi =
    let ih = liquidity_in-filter n from_tick to_tick rs lo hi in
    elim (Bool-cases (contains r n)) [
      | inl inside ↦ rw (kept_contains n from_tick to_tick r lo hi inside, inside) refl
      | inr outside ↦ elim (Bool-cases (keeps from_tick to_tick r)) [
        | inl kept ↦ rw (kept, outside) ih
        | inr dropped ↦ rw (dropped, outside) ih
      ]
    ]

-- Every kept range reaches into the window.
pub filter_reaches :
    (from_tick to_tick : ℤ) (rs : List RangeLiquidity)
    → All
        (λ r. (from_tick <ℤ r.tick_upper) × (r.tick_lower <ℤ to_tick))
        (filter_range_liquidity_array rs from_tick to_tick)
unfolding filter_range_liquidity_array
filter_reaches from_tick to_tick [] = tt
filter_reaches from_tick to_tick (r ∷ rs) = elim (Bool-cases (keeps from_tick to_tick r)) [
  | inl kept ↦ rw kept (ground arith, filter_reaches from_tick to_tick rs)
  | inr dropped ↦ rw dropped (filter_reaches from_tick to_tick rs)
]
