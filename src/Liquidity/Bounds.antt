-- ===== src/Liquidity/Bounds.antt =====
-- `CalculateTickRange` on int32: the bounds of the window.
use native.Mathlib.Omega.{div_fact, mod_fact}
use native.Mathlib.Nat.{zero-mul}
use uniswapv3_tick_state.Prelude.{
  ℕ, zero, suc, ◌+◌, ◌*◌, ◌/◌, ◌^◌, ◌≤◌, ◌<◌, ◌≡◌, refl, ap, ◌∙◌, ℤ, pos, negsuc, neg, ◌+ℤ◌, ◌-ℤ◌,
  ◌*ℤ◌, ◌≤ℤ◌, ◌<ℤ◌, arith, int_laws, to_int32, to_int32_self,
}
use uniswapv3_tick_state.Result.{ok}
use uniswapv3_tick_state.TickKey.{min_tick, max_tick}
use uniswapv3_tick_state.Liquidity.{quo_int32, calculate_tick_range}

-- The multiple of the spacing next to a tick, towards 0.
abbrev pub Centred : ℤ → ℤ → ℕ → Type 0
Centred (pos a) center spacing = (center ≤ℤ pos a) × (pos a <ℤ center +ℤ pos spacing)
Centred (negsuc a) center spacing = (negsuc a ≤ℤ center) × (center <ℤ negsuc a +ℤ pos spacing)

pos-*ℤ : (a b : ℕ) → pos a *ℤ pos b ≡ pos (a * b)
unfolding ◌*ℤ◌
pos-*ℤ a b = ground arith

neg-suc : (a : ℕ) → neg (pos (suc a)) ≡ negsuc a
unfolding neg
neg-suc a = ground arith

neg-zero : neg (pos 0) ≡ pos 0
unfolding neg
neg-zero = refl

neg-*ℤ : (a b : ℕ) → neg (pos a) *ℤ pos b ≡ neg (pos (a * b))
unfolding ◌*ℤ◌
neg-*ℤ zero b = rw (zero-mul b, neg-zero) (pos-*ℤ zero b ∙ ap pos (zero-mul b))
neg-*ℤ (suc a) b = rw (neg-suc a) (grind (arith, int_laws))

quotient_le : (a b : ℕ) → ((a / suc b) * suc b ≤ a) × (a < (a / suc b) * suc b + suc b)
quotient_le a b = let d = div_fact a b in let m = mod_fact a b in (grind arith, grind arith)

center_tick :
    (c : ℤ) (b : ℕ)
    → min_tick ≤ℤ c
    → c ≤ℤ max_tick
    → (q z : ℤ) × (quo_int32 c (pos (suc b)) ≡ ok q)
      × (q *ℤ pos (suc b) ≡ z)
      × (min_tick ≤ℤ z)
      × (z ≤ℤ max_tick)
      × Centred c z (suc b)
unfolding quo_int32
center_tick (pos a) b lo hi =
    let (below, above) = quotient_le a b in
    (
      pos (a / suc b),
      pos ((a / suc b) * suc b),
      refl,
      pos-*ℤ (a / suc b) (suc b),
      omega int_laws,
      omega int_laws,
      (omega int_laws, omega int_laws),
    )
center_tick (negsuc a) b lo hi =
    let (below, above) = quotient_le (suc a) b in
    (
      neg (pos (suc a / suc b)),
      neg (pos ((suc a / suc b) * suc b)),
      refl,
      neg-*ℤ (suc a / suc b) (suc b),
      omega int_laws,
      omega int_laws,
      (omega int_laws, omega int_laws),
    )

-- The window's bounds, where nothing wraps.
window_at :
    (c q z : ℤ) (k b : ℕ)
    → (k + 1) * suc b + 887272 < 2 ^ 31
    → quo_int32 c (pos (suc b)) ≡ ok q
    → q *ℤ pos (suc b) ≡ z
    → min_tick ≤ℤ z
    → z ≤ℤ max_tick
    → calculate_tick_range c (to_int32 (pos k)) (pos (suc b))
      ≡ ok (z -ℤ pos (k * suc b), z +ℤ pos ((k + 1) * suc b))
unfolding calculate_tick_range
window_at c q z k b room quo center lo hi =
    let suc_mul : (k + 1) * suc b ≡ k * suc b + suc b = grind arith in
    let k_le : k ≤ k * suc b = grind arith in
    let plus : pos k +ℤ pos 1 ≡ pos (k + 1) = grind int_laws in
    rw
      (
        to_int32_self (pos k) (omega arith, omega arith),
        quo,
        center,
        to_int32_self z (omega arith, omega arith),
        plus,
        to_int32_self (pos (k + 1)) (omega arith, omega arith),
        pos-*ℤ k (suc b),
        pos-*ℤ (k + 1) (suc b),
        to_int32_self (pos (k * suc b)) (omega arith, omega arith),
        to_int32_self (pos ((k + 1) * suc b)) (omega arith, omega arith),
        to_int32_self (z -ℤ pos (k * suc b)) (omega int_laws, omega int_laws),
        to_int32_self (z +ℤ pos ((k + 1) * suc b)) (omega int_laws, omega int_laws),
      )
      refl

around : (c z : ℤ) (s w : ℕ) → Centred c z s → s ≤ w → (z -ℤ pos w ≤ℤ c) × (c <ℤ z +ℤ pos (w + s))
around (pos a) z s w near le = (omega int_laws, omega int_laws)
around (negsuc a) z s w near le = (omega int_laws, omega int_laws)

-- For a current tick of a pool, a positive spacing and a positive offset whose half window, with the
-- greatest tick, fits an int32: nothing wraps, the window contains the current tick, it is 2 offset
-- + 1 spacings long, and offset spacings behind its begin lies the multiple of the spacing that is
-- next to the current tick towards 0.
pub calculate_tick_range_lem :
    (current_tick : ℤ) (offset spacing : ℕ)
    → min_tick ≤ℤ current_tick
    → current_tick ≤ℤ max_tick
    → 0 < offset
    → 0 < spacing
    → (offset + 1) * spacing + 887272 < 2 ^ 31
    → (from_tick to_tick : ℤ) × (calculate_tick_range current_tick
          (to_int32 (pos offset))
          (pos spacing)
        ≡ ok (from_tick, to_tick))
      × (from_tick ≤ℤ current_tick)
      × (current_tick <ℤ to_tick)
      × (to_tick ≡ from_tick +ℤ pos ((2 * offset + 1) * spacing))
      × Centred current_tick (from_tick +ℤ pos (offset * spacing)) spacing
calculate_tick_range_lem c k zero lo hi pos_k pos_s room = absurd (omega arith)
calculate_tick_range_lem c k (suc b) lo hi pos_k pos_s room =
    let (q, z, quo, center, z_lo, z_hi, near) = center_tick c b lo hi in
    let spacing_le : suc b ≤ k * suc b = grind arith in
    let once_more : (k + 1) * suc b ≡ k * suc b + suc b = grind arith in
    let twice : (2 * k + 1) * suc b ≡ k * suc b + (k + 1) * suc b = grind arith in
    let back : (z -ℤ pos (k * suc b)) +ℤ pos (k * suc b) ≡ z = grind int_laws in
    let (from_le, lt_to) = around c z (suc b) (k * suc b) near spacing_le in
    (
      z -ℤ pos (k * suc b),
      z +ℤ pos ((k + 1) * suc b),
      window_at c q z k b room quo center z_lo z_hi,
      from_le,
      rw once_more lt_to,
      rw (twice, once_more) (grind int_laws),
      rw back near,
    )
