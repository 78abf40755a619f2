-- ===== src/Liquidity/Build.antt =====
-- `BuildRangeLiquidityArray` against the pool's liquidity at every tick.
use uniswapv3_tick_state.Prelude.{
  ◌≡◌, refl, ap, ◌∙◌, Bool, true, false, not, ◌&&◌, Option, none, some, List, [], ◌∷◌, ℤ, pos, ◌+ℤ◌,
  ◌<ℤ◌, ltb_ℤ, if◌then◌else◌, int_laws, arith,
}
use uniswapv3_tick_state.Types.{TickState}
use uniswapv3_tick_state.Db.Contract.{Ascend, AscendAbove}
use uniswapv3_tick_state.Liquidity.{
  RangeLiquidity, tick_boundaries, prefix_liquidity, ranges_between, build_range_liquidity_array,
}
use uniswapv3_tick_state.Liquidity.Ranges.{liquidity_in, liquidity_at, Chain, first_tick, last_tick}

-- Below all ticks the liquidity is 0.
liquidity_at_below :
    (n m : ℤ) (ts : List TickState)
    → AscendAbove m ts
    → ltb_ℤ m n ≡ false
    → liquidity_at n ts ≡ pos 0
liquidity_at_below n m [] h low = refl
liquidity_at_below n m (t ∷ ts) h low = grind (int_laws, liquidity_at_below n t.tick ts h.1)

below_first :
    (n : ℤ) (t : TickState) (ts : List TickState)
    → AscendAbove t.tick ts
    → ltb_ℤ n t.tick ≡ true
    → liquidity_at n (t ∷ ts) ≡ pos 0
below_first n t ts h low = grind (int_laws, liquidity_at_below n t.tick ts h)

ranges : ℤ → List TickState → List RangeLiquidity
ranges current ts = ranges_between (tick_boundaries ts) (prefix_liquidity current ts)

abbrev within : ℤ → List TickState → Bool
within n ts = not (ltb_ℤ n (first_tick ts)) && ltb_ℤ n (last_tick ts)

last-above :
    (m : ℤ) (t : TickState) (ts : List TickState) → AscendAbove m (t ∷ ts) → m <ℤ last_tick (t ∷ ts)
last-above m t [] h = h.0
last-above m t (u ∷ ts) h = let later = last-above t.tick u ts h.1 in omega arith

add_zero : (a : ℤ) → a +ℤ pos 0 ≡ a
add_zero a = omega int_laws

zero_add : (a : ℤ) → pos 0 +ℤ a ≡ a
zero_add a = omega int_laws

add_assoc : (a b c : ℤ) → a +ℤ b +ℤ c ≡ a +ℤ (b +ℤ c)
add_assoc a b c = omega int_laws

last-le :
    (t : TickState) (ts : List TickState)
    → Ascend (t ∷ ts)
    → ltb_ℤ (last_tick (t ∷ ts)) t.tick ≡ false
last-le t [] h = ground arith
last-le t (u ∷ ts) h = let later = last-above t.tick u ts h in ground arith

-- One range in front of those that are right from its upper bound on.
one_range :
    (n current a b net last rest : ℤ) (found : Option ℤ)
    → a <ℤ b
    → ltb_ℤ last b ≡ false
    → (ltb_ℤ n b ≡ true → rest ≡ pos 0)
    → found ≡ (if not (ltb_ℤ n b) && ltb_ℤ n last then some (current +ℤ net +ℤ rest) else none)
    → (if not (ltb_ℤ n a) && ltb_ℤ n b then some (current +ℤ net) else found) ≡ (
        if not (ltb_ℤ n a) && ltb_ℤ n last
        then some (current +ℤ ((if ltb_ℤ n a then pos 0 else net) +ℤ rest))
        else none)
one_range n current a b net last rest found lt le zero_rest h =
    ground (arith, add_zero net, add_assoc current net rest)

liquidity_in-ranges :
    (n current : ℤ) (ts : List TickState)
    → Ascend ts
    → liquidity_in n (ranges current ts)
      ≡ (if within n ts then some (current +ℤ liquidity_at n ts) else none)
unfolding ranges ranges_between tick_boundaries prefix_liquidity
liquidity_in-ranges n current [] h = ground arith
liquidity_in-ranges n current (t ∷ []) h = ground arith
liquidity_in-ranges n current (t ∷ u ∷ ts) h =
    let ih = liquidity_in-ranges n (current +ℤ t.liquidity_net) (u ∷ ts) h.1 in
    one_range n current t.tick u.tick t.liquidity_net (last_tick (u ∷ ts)) (liquidity_at n (u ∷ ts))
      _ h.0 (last-le u ts h.1) (below_first n u ts h.1) ih

Chain-ranges :
    (current : ℤ) (ts : List TickState) → Ascend ts → Chain (first_tick ts) (ranges current ts)
unfolding ranges ranges_between tick_boundaries prefix_liquidity
Chain-ranges current [] h = tt
Chain-ranges current (t ∷ []) h = tt
Chain-ranges current (t ∷ u ∷ ts) h =
    (refl, h.0, Chain-ranges (current +ℤ t.liquidity_net) (u ∷ ts) h.1)

-- From ticks in ascending order, the ranges give at every tick from the first up to the last the
-- liquidity of the pool there, the net liquidity of all ticks up to it, and nothing elsewhere.
pub liquidity_in-build :
    (n : ℤ) (ts : List TickState)
    → Ascend ts
    → liquidity_in n (build_range_liquidity_array ts) ≡ (
        if not (ltb_ℤ n (first_tick ts)) && ltb_ℤ n (last_tick ts)
        then some (liquidity_at n ts)
        else none)
unfolding build_range_liquidity_array ranges
liquidity_in-build n ts h =
    liquidity_in-ranges n (pos 0) ts h
    ∙ ap (λ l. if within n ts then some l else none) (zero_add (liquidity_at n ts))

-- From ticks in ascending order, the ranges are not empty, and each begins where the one before it
-- ends, the first at the first tick.
pub build-Chain :
    (ts : List TickState) → Ascend ts → Chain (first_tick ts) (build_range_liquidity_array ts)
unfolding build_range_liquidity_array ranges
build-Chain ts h = Chain-ranges (pos 0) ts h
