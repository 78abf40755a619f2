-- ===== src/Prelude/Int.antt =====
-- Signed integers over the native numbers, and Go's conversions between integer types.
use Prim.Native.Nat.{ℕ, suc, ◌+◌, ◌-◌, ◌*◌, ◌%◌, ◌^◌, ◌≤◌, ◌<◌}
use mathlib.Core.Path.{◌≡◌}
use mathlib.Core.Bool.{Bool}
use native.Mathlib.Omega.{arith}
use uniswapv3_tick_state.Prelude.Tests.{ltb, leb, ◌==◌, if◌then◌else◌}

-- `negsuc n` is -(n + 1).
pub data ℤ : Type 0 where
  pos : ℕ → ℤ
  negsuc : ℕ → ℤ

abbrev pub pos_part : ℤ → ℕ
pos_part (pos n) = n
pos_part (negsuc n) = 0

abbrev pub neg_part : ℤ → ℕ
neg_part (pos n) = 0
neg_part (negsuc n) = suc n

-- a - b, as an integer.
abbrev pub sub_ℕ : ℕ → ℕ → ℤ
sub_ℕ a b = if leb b a then pos (a - b) else negsuc (b - a - 1)

infixl 65 ◌+ℤ◌ ◌-ℤ◌
infixl 70 ◌*ℤ◌
infix 50 ◌≤ℤ◌ ◌<ℤ◌
unfoldable pub ◌+ℤ◌ : ℤ → ℤ → ℤ
a +ℤ b = sub_ℕ (pos_part a + pos_part b) (neg_part a + neg_part b)

unfoldable pub ◌-ℤ◌ : ℤ → ℤ → ℤ
a -ℤ b = sub_ℕ (pos_part a + neg_part b) (neg_part a + pos_part b)

unfoldable pub ◌*ℤ◌ : ℤ → ℤ → ℤ
a *ℤ b =
    sub_ℕ (pos_part a * pos_part b + neg_part a * neg_part b)
      (pos_part a * neg_part b + neg_part a * pos_part b)

-- - a
unfoldable pub neg : ℤ → ℤ
neg a = sub_ℕ (neg_part a) (pos_part a)

abbrev pub ◌≤ℤ◌ : ℤ → ℤ → Type 0
a ≤ℤ b = pos_part a + neg_part b ≤ pos_part b + neg_part a

abbrev pub ◌<ℤ◌ : ℤ → ℤ → Type 0
a <ℤ b = pos_part a + neg_part b < pos_part b + neg_part a

abbrev pub ltb_ℤ : ℤ → ℤ → Bool
ltb_ℤ a b = ltb (pos_part a + neg_part b) (pos_part b + neg_part a)

abbrev pub eqb_ℤ : ℤ → ℤ → Bool
eqb_ℤ a b = (pos_part a + neg_part b) == (pos_part b + neg_part a)

pub +ℤ_parts :
    (a b : ℤ)
    → pos_part (a +ℤ b) + neg_part a + neg_part b ≡ neg_part (a +ℤ b) + pos_part a + pos_part b
unfolding ◌+ℤ◌
+ℤ_parts a b = ground arith

pub -ℤ_parts :
    (a b : ℤ)
    → pos_part (a -ℤ b) + neg_part a + pos_part b ≡ neg_part (a -ℤ b) + pos_part a + neg_part b
unfolding ◌-ℤ◌
-ℤ_parts a b = ground arith

pub neg_parts : (a : ℤ) → pos_part (neg a) + pos_part a ≡ neg_part (neg a) + neg_part a
unfolding neg
neg_parts a = ground arith

pub eq_of_parts : (a b : ℤ) → pos_part a + neg_part b ≡ pos_part b + neg_part a → a ≡ b
eq_of_parts a b h = ground arith

pub eqb_ℤ_refl : (a : ℤ) → eqb_ℤ a a ≡ Bool.true
eqb_ℤ_refl a = ground arith

pub eqb_ℤ→eq : (a b : ℤ) → eqb_ℤ a b ≡ Bool.true → a ≡ b
eqb_ℤ→eq a b h = ground arith

pub ruleset int_laws = (arith, +ℤ_parts, -ℤ_parts, neg_parts, eq_of_parts)

-- Go's `uint32(n)` of a signed integer, and `int32(w)` of an unsigned one: the residue modulo
-- 2 ^ 32, read with or without a sign.
abbrev pub u32_mod : ℕ
u32_mod = 2 ^ 32

unfoldable pub to_uint32 : ℤ → ℕ
to_uint32 (pos n) = n % u32_mod
to_uint32 (negsuc n) = u32_mod - 1 - n % u32_mod

unfoldable pub int32_of_uint : ℕ → ℤ
int32_of_uint w = let r = w % u32_mod in if ltb r (2 ^ 31) then pos r else negsuc (u32_mod - 1 - r)

-- `int32(n)` of a wider signed integer.
unfoldable pub to_int32 : ℤ → ℤ
unfolding to_uint32 int32_of_uint
to_int32 n = int32_of_uint (to_uint32 n)

abbrev pub IsInt32 : ℤ → Type 0
IsInt32 t = (negsuc (2 ^ 31 - 1) ≤ℤ t) × (t ≤ℤ pos (2 ^ 31 - 1))

abbrev pub IsInt24 : ℤ → Type 0
IsInt24 t = (negsuc (2 ^ 23 - 1) ≤ℤ t) × (t ≤ℤ pos (2 ^ 23 - 1))

abbrev pub u64_mod : ℕ
u64_mod = 2 ^ 64

pub to_uint32-lt : (t : ℤ) → to_uint32 t < u32_mod
unfolding to_uint32
to_uint32-lt (pos n) = omega arith
to_uint32-lt (negsuc n) = omega arith

pub int32_of_uint-to_uint32 : (t : ℤ) → IsInt32 t → int32_of_uint (to_uint32 t) ≡ t
unfolding to_uint32 int32_of_uint
int32_of_uint-to_uint32 (pos n) h = ground arith
int32_of_uint-to_uint32 (negsuc n) h = ground arith

pub int32_of_uint-IsInt32 : (w : ℕ) → IsInt32 (int32_of_uint w)
unfolding int32_of_uint
int32_of_uint-IsInt32 w = ground arith

pub to_uint32-int32_of_uint : (w : ℕ) → w < u32_mod → to_uint32 (int32_of_uint w) ≡ w
unfolding to_uint32 int32_of_uint
to_uint32-int32_of_uint w h = ground arith

pub to_int32-IsInt32 : (t : ℤ) → IsInt32 (to_int32 t)
unfolding to_int32
to_int32-IsInt32 t = int32_of_uint-IsInt32 (to_uint32 t)

pub to_int32_self : (t : ℤ) → IsInt32 t → to_int32 t ≡ t
unfolding to_int32
to_int32_self t h = int32_of_uint-to_uint32 t h

pub ltb_ℤ→lt : (a b : ℤ) → ltb_ℤ a b ≡ Bool.true → a <ℤ b
ltb_ℤ→lt a b h = ground arith

pub ltb_ℤ→le : (a b : ℤ) → ltb_ℤ a b ≡ Bool.false → b ≤ℤ a
ltb_ℤ→le a b h = ground arith
