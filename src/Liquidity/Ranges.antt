-- ===== src/Liquidity/Ranges.antt =====
-- The specification of ranges: the liquidity that a list of ranges gives at a tick, and lists of
-- ranges that follow one another without a gap.
use uniswapv3_tick_state.Prelude.{
  ◌≡◌, Bool, not, ◌&&◌, Option, none, some, List, [], ◌∷◌, ℤ, pos, ◌+ℤ◌, ◌<ℤ◌, ltb_ℤ, if◌then◌else◌,
}
use uniswapv3_tick_state.Types.{TickState}
use uniswapv3_tick_state.Liquidity.{RangeLiquidity}

abbrev pub contains : RangeLiquidity → ℤ → Bool
contains r n = not (ltb_ℤ n r.tick_lower) && ltb_ℤ n r.tick_upper

-- The liquidity of the first range that contains a tick.
abbrev pub liquidity_in : ℤ → List RangeLiquidity → Option ℤ
liquidity_in n [] = none
liquidity_in n (r ∷ rs) = if contains r n then some r.liquidity else liquidity_in n rs

-- The pool's liquidity at a tick: the net liquidity of all ticks up to it.
abbrev pub liquidity_at : ℤ → List TickState → ℤ
liquidity_at n [] = pos 0
liquidity_at n (t ∷ ts) = (if ltb_ℤ n t.tick then pos 0 else t.liquidity_net) +ℤ liquidity_at n ts

-- The ranges begin at the given tick, are not empty, and each begins where the one before ends.
abbrev pub Chain : ℤ → List RangeLiquidity → Type 0
Chain n [] = Unit
Chain n (r ∷ rs) = (r.tick_lower ≡ n) × (r.tick_lower <ℤ r.tick_upper) × Chain r.tick_upper rs

abbrev pub first_tick : List TickState → ℤ
first_tick [] = pos 0
first_tick (t ∷ ts) = t.tick

abbrev pub last_tick : List TickState → ℤ
last_tick [] = pos 0
last_tick (t ∷ []) = t.tick
last_tick (t ∷ u ∷ ts) = last_tick (u ∷ ts)
