-- ===== src/Liquidity.antt =====
-- liquidity_to_amount.go: from the ticks of a pool to ranges of constant liquidity and the token
-- amounts in them.
pub mod Ranges
pub mod Build
pub mod Bounds
pub mod Filter
pub mod Split
use uniswapv3_tick_state.Prelude.{
  ℕ, zero, suc, ◌/◌, ◌^◌, Bool, ◌&&◌, Option, none, some, List, [], ◌∷◌, ◌++◌, ℤ, pos, negsuc, neg,
  ◌+ℤ◌, ◌-ℤ◌, ◌*ℤ◌, ltb_ℤ, eqb_ℤ, to_int32, if◌then◌else◌,
}
use uniswapv3_tick_state.Result.{Result, ok, panic, bind}
use uniswapv3_tick_state.Types.{TickState}

pub record RangeLiquidity : Type 0 where
  pub tick_lower : ℤ
  pub tick_upper : ℤ
  pub liquidity : ℤ

unfoldable pub tick_boundaries : List TickState → List ℤ
tick_boundaries [] = []
tick_boundaries (t ∷ ts) = t.tick ∷ tick_boundaries ts

-- The running sum of the loop, stored at each index.
unfoldable pub prefix_liquidity : ℤ → List TickState → List ℤ
prefix_liquidity current [] = []
prefix_liquidity current (t ∷ ts) =
    let next = current +ℤ t.liquidity_net in next ∷ prefix_liquidity next ts

-- One range for each index but the last, from the two arrays.
unfoldable pub ranges_between : List ℤ → List ℤ → List RangeLiquidity
ranges_between (a ∷ b ∷ bs) (l ∷ ls) =
    record { tick_lower = a; tick_upper = b; liquidity = l } ∷ ranges_between (b ∷ bs) ls
ranges_between _ _ = []

unfoldable pub build_range_liquidity_array : List TickState → List RangeLiquidity
unfolding tick_boundaries prefix_liquidity ranges_between
build_range_liquidity_array tick_states =
    ranges_between (tick_boundaries tick_states) (prefix_liquidity (pos 0) tick_states)

-- The test of the filter: rl.TickUpper > fromTick && rl.TickLower < toTick
abbrev pub keeps : ℤ → ℤ → RangeLiquidity → Bool
keeps from_tick to_tick r = ltb_ℤ from_tick r.tick_upper && ltb_ℤ r.tick_lower to_tick

unfoldable pub filter_range_liquidity_array : List RangeLiquidity → ℤ → ℤ → List RangeLiquidity
filter_range_liquidity_array [] from_tick to_tick = []
filter_range_liquidity_array (r ∷ rs) from_tick to_tick =
    let rest = filter_range_liquidity_array rs from_tick to_tick in
    if keeps from_tick to_tick r then r ∷ rest else rest

-- The loop of `SplitToTickSpacingRanges` from `t`, on int32; none means that the fuel ran out.
unfoldable pub split_from : ℕ → ℤ → ℤ → ℤ → Option (List (ℤ × ℤ))
split_from zero t tick_upper tick_spacing = none
split_from (suc fuel) t tick_upper tick_spacing =
    let next = to_int32 (t +ℤ tick_spacing) in
    let rest = split_from fuel next tick_upper tick_spacing in
    let clipped = if ltb_ℤ tick_upper next then tick_upper else next in
    if ltb_ℤ t tick_upper
    then elim rest [ none ↦ none | some ranges ↦ some ((t, clipped) ∷ ranges) ]
    else some []

unfoldable pub split_to_tick_spacing_ranges : ℕ → ℤ → ℤ → ℤ → Option (List (ℤ × ℤ))
unfolding split_from
split_to_tick_spacing_ranges fuel tick_lower tick_upper tick_spacing =
    split_from fuel tick_lower tick_upper tick_spacing

-- the inner loop of `SplitRangeLiquidityArray`
unfoldable pub with_liquidity : ℤ → List (ℤ × ℤ) → List RangeLiquidity
with_liquidity l [] = []
with_liquidity l ((a, b) ∷ ranges) =
    record { tick_lower = a; tick_upper = b; liquidity = l } ∷ with_liquidity l ranges

unfoldable pub split_range_liquidity_array :
    ℕ → List RangeLiquidity → ℤ → Option (List RangeLiquidity)
unfolding with_liquidity
split_range_liquidity_array fuel [] tick_spacing = some []
split_range_liquidity_array fuel (r ∷ rs) tick_spacing =
    let rest = split_range_liquidity_array fuel rs tick_spacing in
    elim (split_to_tick_spacing_ranges fuel r.tick_lower r.tick_upper tick_spacing) [
      | none ↦ none
      | some ranges ↦ elim rest [
        | none ↦ none
        | some result ↦ some (with_liquidity r.liquidity ranges ++ result)
      ]
    ]

-- Go's quotient of two int32, truncated towards 0; a zero divisor panics. Only the quotient of the
-- least int32 by -1 wraps.
unfoldable pub quo_int32 : ℤ → ℤ → Result ℤ
quo_int32 a (pos zero) = panic
quo_int32 (pos a) (pos (suc b)) = ok (pos (a / suc b))
quo_int32 (negsuc a) (pos (suc b)) = ok (neg (pos (suc a / suc b)))
quo_int32 (pos a) (negsuc b) = ok (neg (pos (a / suc b)))
quo_int32 (negsuc a) (negsuc b) = ok (to_int32 (pos (suc a / suc b)))

-- The window of ticks, its bounds computed on int32.
unfoldable pub calculate_tick_range : ℤ → ℤ → ℤ → Result (ℤ × ℤ)
unfolding quo_int32
calculate_tick_range current_tick tick_offset tick_spacing =
    bind (quo_int32 current_tick tick_spacing) λ q.
      let center = to_int32 (q *ℤ tick_spacing) in
      ok (
        to_int32 (center -ℤ to_int32 (tick_offset *ℤ tick_spacing)),
        to_int32 (center +ℤ to_int32 (to_int32 (tick_offset +ℤ pos 1) *ℤ tick_spacing)),
      )

pub record RangeAmount (Float : Type 0) : Type 0 where
  pub tick_lower : ℤ
  pub tick_upper : ℤ
  pub liquidity : ℤ
  pub amount0 : Float
  pub amount1 : Float

-- The operations of `big.Float` and `math.Pow` that `CalcRangeAmount` calls. Rounding is theirs, so
-- they are a parameter; `pow_half n` is math.Pow(1.0001, float64(n)/2) as a big.Float, and `pow10 n`
-- is math.Pow10(n).
pub record FloatOps : Type 1 where
  pub Float : Type 0
  pub of_int : ℤ → Float
  pub pow_half : ℤ → Float
  pub pow10 : ℤ → Float
  pub mul : Float → Float → Float
  pub sub : Float → Float → Float
  pub quo : Float → Float → Float

module _ (f : FloatOps) where
  open f use {Float, of_int, pow_half, pow10, mul, sub, quo}

  unfoldable pub calc_range_amount : ℤ → ℤ → ℤ → ℤ → ℤ → RangeAmount Float
  calc_range_amount liquidity tick_lower tick_upper token0_decimals token1_decimals =
      let q96 = of_int (pos (2 ^ 96)) in
      let sqrt_a = mul (pow_half tick_lower) q96 in
      let sqrt_b = mul (pow_half tick_upper) q96 in
      let liq = of_int liquidity in
      record {
        tick_lower = tick_lower;
        tick_upper = tick_upper;
        liquidity = liquidity;
        amount0 =
            quo (quo (quo (mul (mul liq q96) (sub sqrt_b sqrt_a)) sqrt_b) sqrt_a)
              (pow10 token0_decimals);
        amount1 = quo (quo (mul liq (sub sqrt_b sqrt_a)) q96) (pow10 token1_decimals);
      }

  unfoldable pub calc_range_amount_array : List RangeLiquidity → ℤ → ℤ → List (RangeAmount Float)
  unfolding calc_range_amount
  calc_range_amount_array [] token0_decimals token1_decimals = []
  calc_range_amount_array (r ∷ rs) token0_decimals token1_decimals =
      calc_range_amount r.liquidity r.tick_lower r.tick_upper token0_decimals token1_decimals
      ∷ calc_range_amount_array rs token0_decimals token1_decimals
