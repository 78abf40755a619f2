-- ===== src/Liquidity/Split.antt =====
-- `SplitToTickSpacingRanges` and `SplitRangeLiquidityArray`: the loop ends, and the pieces cover
-- the range that they replace.
use uniswapv3_tick_state.Prelude.{
  ℕ, zero, suc, ◌+◌, ◌-◌, ◌^◌, ◌<◌, ◌≡◌, refl, ◌∙◌, Bool, inl, inr, not, ◌&&◌, ◌⊎◌, Option, none,
  some, List, [], ◌∷◌, ◌++◌, ℤ, pos, pos_part, neg_part, ◌+ℤ◌, ◌<ℤ◌, ◌≤ℤ◌, ltb_ℤ, ltb_ℤ→lt,
  ltb_ℤ→le, if◌then◌else◌, Bool-cases, All, arith, int_laws, IsInt32, to_int32, to_int32_self,
}
use uniswapv3_tick_state.Liquidity.{
  RangeLiquidity, split_from, split_to_tick_spacing_ranges, with_liquidity,
  split_range_liquidity_array,
}
use uniswapv3_tick_state.Liquidity.Ranges.{contains, liquidity_in}

-- The pieces run from `lower` to `upper` without a gap, each as long as the spacing, but for the
-- last, which ends at `upper`.
abbrev pub Pieces : ℤ → ℤ → ℤ → List (ℤ × ℤ) → Type 0
Pieces spacing lower upper [] = upper ≤ℤ lower
Pieces spacing lower upper ((a, b) ∷ rs) =
    (a ≡ lower)
    × (a <ℤ upper)
    × (((b ≡ a +ℤ spacing) × (b ≤ℤ upper)) ⊎ ((b ≡ upper) × (upper <ℤ a +ℤ spacing)))
    × Pieces spacing b upper rs

-- upper - t, as a bound of the rounds left
abbrev pub distance : ℤ → ℤ → ℕ
distance t upper = (pos_part upper + neg_part t) - (pos_part t + neg_part upper)

module _ (upper spacing : ℤ) (positive : pos 0 <ℤ spacing)
    (room : upper +ℤ spacing ≤ℤ pos (2 ^ 31 - 1)) where
  next_IsInt32 : (t : ℤ) → IsInt32 t → t <ℤ upper → IsInt32 (t +ℤ spacing)
  next_IsInt32 t int lt = omega int_laws

  next_tick : (t : ℤ) → IsInt32 t → t <ℤ upper → to_int32 (t +ℤ spacing) ≡ t +ℤ spacing
  next_tick t int lt = to_int32_self (t +ℤ spacing) (next_IsInt32 t int lt)

  -- Behind a clipped piece nothing is left.
  clip :
      (next : ℤ) (rs : List (ℤ × ℤ))
      → upper <ℤ next
      → Pieces spacing next upper rs
      → Pieces spacing upper upper rs
  clip next [] over h = omega arith
  clip next ((a, b) ∷ rs) over h = let e : a ≡ next = h.0 in absurd (ground arith)

  split_from-Pieces :
      (fuel : ℕ) (t : ℤ)
      → distance t upper < fuel
      → IsInt32 t
      → (rs : List (ℤ × ℤ)) × (split_from fuel t upper spacing ≡ some rs)
        × Pieces spacing t upper rs
  unfolding split_from
  split_from-Pieces zero t enough int = absurd (omega arith)
  split_from-Pieces (suc fuel) t enough int = elim (Bool-cases (ltb_ℤ t upper)) [
    | inl below ↦
        let (rs, runs, pieces) =
          split_from-Pieces fuel (t +ℤ spacing) (omega (int_laws, ltb_ℤ→lt t upper below))
            (next_IsInt32 t int (ltb_ℤ→lt t upper below)) in
        let lt : t <ℤ upper = ltb_ℤ→lt t upper below in
        rw (below, next_tick t int lt, runs)
          (elim (Bool-cases (ltb_ℤ upper (t +ℤ spacing))) [
            | inl over ↦
                let over_lt : upper <ℤ t +ℤ spacing = ltb_ℤ→lt upper (t +ℤ spacing) over in
                (
                  (t, upper) ∷ rs,
                  rw (next_tick t int lt, over) refl,
                  (refl, lt, inr (refl, over_lt), clip (t +ℤ spacing) rs over_lt pieces),
                )
            | inr fits ↦ (
              (t, t +ℤ spacing) ∷ rs,
              rw (next_tick t int lt, fits) refl,
              (refl, lt, inl (refl, ltb_ℤ→le upper (t +ℤ spacing) fits), pieces),
            )
          ])
    | inr done ↦ ([], rw done refl, ground arith)
  ]

-- Where the pieces are, they give the liquidity of the range.
contains_append :
    (n : ℤ) (xs ys : List RangeLiquidity)
    → liquidity_in n (xs ++ ys)
      ≡ elim (liquidity_in n xs) [ none ↦ liquidity_in n ys | some l ↦ some l ]
contains_append n [] ys = refl
contains_append n (x ∷ xs) ys = elim (Bool-cases (contains x n)) [
  | inl inside ↦ rw inside refl
  | inr outside ↦ rw outside (contains_append n xs ys)
]

abbrev covers : ℤ → ℤ → ℤ → Bool
covers lower upper n = not (ltb_ℤ n lower) && ltb_ℤ n upper

piece_if :
    (n l lower b upper : ℤ) (found : Option ℤ)
    → lower <ℤ b
    → b ≤ℤ upper
    → found ≡ (if covers b upper n then some l else none)
    → (if covers lower b n then some l else found) ≡ (if covers lower upper n then some l else none)
piece_if n l lower b upper found lt le h = ground arith

piece_bounds :
    (spacing a b upper : ℤ)
    → pos 0 <ℤ spacing
    → a <ℤ upper
    → ((b ≡ a +ℤ spacing) × (b ≤ℤ upper)) ⊎ ((b ≡ upper) × (upper <ℤ a +ℤ spacing))
    → (a <ℤ b) × (b ≤ℤ upper)
piece_bounds spacing a b upper p lt (inl (e, le)) = (rw e (omega int_laws), le)
piece_bounds spacing a b upper p lt (inr (e, over)) = (rw e lt, rw e (omega arith))

liquidity_in-Pieces :
    (n l spacing lower upper : ℤ) (rs : List (ℤ × ℤ))
    → Pieces spacing lower upper rs
    → pos 0 <ℤ spacing
    → liquidity_in n (with_liquidity l rs) ≡ (if covers lower upper n then some l else none)
unfolding with_liquidity
liquidity_in-Pieces n l spacing lower upper [] h p = ground arith
liquidity_in-Pieces n l spacing lower upper ((a, b) ∷ rs) h p =
    let ih = liquidity_in-Pieces n l spacing b upper rs h.3 p in
    let (lt, le) = piece_bounds spacing a b upper p h.1 h.2 in
    let first : a ≡ lower = h.0 in rw (← first) (piece_if n l a b upper _ lt le ih)

join :
    (n : ℤ) (r : RangeLiquidity) (pieces : List (ℤ × ℤ)) (x y : Option ℤ)
    → liquidity_in n (with_liquidity r.liquidity pieces)
      ≡ (if covers r.tick_lower r.tick_upper n then some r.liquidity else none)
    → x ≡ y
    → elim (liquidity_in n (with_liquidity r.liquidity pieces)) [ none ↦ x | some l ↦ some l ]
      ≡ (if contains r n then some r.liquidity else y)
join n r pieces x y h e =
    rw h (elim (Bool-cases (contains r n)) [
      | inl inside ↦ rw inside refl
      | inr outside ↦ rw outside e
    ])

-- The loop of `SplitToTickSpacingRanges` ends, within as many rounds as the range is long, where
-- the spacing is positive and the sum of the upper bound and the spacing is an int32. Its pieces
-- run from the lower to the upper bound without a gap, each as long as the spacing but for the
-- last, which is cut at the upper bound.
pub split-Pieces :
    (fuel : ℕ) (lower upper spacing : ℤ)
    → pos 0 <ℤ spacing
    → upper +ℤ spacing ≤ℤ pos (2 ^ 31 - 1)
    → IsInt32 lower
    → distance lower upper < fuel
    → (rs : List (ℤ × ℤ)) × (split_to_tick_spacing_ranges fuel lower upper spacing ≡ some rs)
      × Pieces spacing lower upper rs
unfolding split_to_tick_spacing_ranges
split-Pieces fuel lower upper spacing positive room int enough =
    split_from-Pieces upper spacing positive room fuel lower enough int

-- What a range must meet so that it can be split.
abbrev pub Splits : ℕ → ℤ → RangeLiquidity → Type 0
Splits fuel spacing r =
    (r.tick_upper +ℤ spacing ≤ℤ pos (2 ^ 31 - 1))
    × IsInt32 r.tick_lower
    × (distance r.tick_lower r.tick_upper < fuel)

-- `SplitRangeLiquidityArray` ends, for a positive spacing and ranges whose bounds leave room for it
-- on int32, with more fuel than the longest range is long; and the finer ranges give at every tick
-- the liquidity that the ranges gave.
pub liquidity_in-split :
    (fuel : ℕ) (spacing : ℤ) (rs : List RangeLiquidity)
    → pos 0 <ℤ spacing
    → All (Splits fuel spacing) rs
    → (result : List RangeLiquidity) × (split_range_liquidity_array fuel rs spacing ≡ some result)
      × ((n : ℤ) → liquidity_in n result ≡ liquidity_in n rs)
unfolding split_range_liquidity_array
liquidity_in-split fuel spacing [] positive h = ([], refl, λ n. refl)
liquidity_in-split fuel spacing (r ∷ rs) positive h =
    let (pieces, runs, parts) =
      split-Pieces fuel r.tick_lower r.tick_upper spacing positive h.0.0 h.0.1 h.0.2 in
    let (result, rest, same) = liquidity_in-split fuel spacing rs positive h.1 in
    (
      with_liquidity r.liquidity pieces ++ result,
      rw (split_range_liquidity_array, runs, rest) refl,
      λ n.
          contains_append n (with_liquidity r.liquidity pieces) result
          ∙ join n r pieces (liquidity_in n result) (liquidity_in n rs)
              (liquidity_in-Pieces n r.liquidity spacing r.tick_lower r.tick_upper pieces parts
                positive)
              (same n),
    )
