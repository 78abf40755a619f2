-- ===== src/Bytes/Order.antt =====
-- The order of byte strings is strict and total, and strings between two others with a common
-- prefix share that prefix.
use uniswapv3_tick_state.Prelude.{◌≡◌, refl, true, false, ◌&&◌, [], ◌∷◌, ◌++◌, length, arith}
use uniswapv3_tick_state.Bytes.{Bytes, bytes_ltb, bytes_eqb}

pub bytes_ltb-append : (p a b : Bytes) → bytes_ltb (p ++ a) (p ++ b) ≡ bytes_ltb a b
unfolding bytes_ltb
bytes_ltb-append [] a b = refl
bytes_ltb-append (x ∷ p) a b = ground (arith, bytes_ltb-append p a b)

pub bytes_ltb_irrefl : (a : Bytes) → bytes_ltb a a ≡ false
unfolding bytes_ltb
bytes_ltb_irrefl [] = refl
bytes_ltb_irrefl (x ∷ a) = ground (arith, bytes_ltb_irrefl a)

pub bytes_ltb_trans :
    (a b c : Bytes) → bytes_ltb a b ≡ true → bytes_ltb b c ≡ true → bytes_ltb a c ≡ true
unfolding bytes_ltb
bytes_ltb_trans a [] [] h k = cc
bytes_ltb_trans [] [] (z ∷ c) h k = refl
bytes_ltb_trans (x ∷ a) [] (z ∷ c) h k = cc
bytes_ltb_trans a (y ∷ b) [] h k = cc
bytes_ltb_trans [] (y ∷ b) (z ∷ c) h k = refl
bytes_ltb_trans (x ∷ a) (y ∷ b) (z ∷ c) h k = ground (arith, bytes_ltb_trans a b c)

-- A string that is neither below p ++ lo nor above p ++ hi begins with p.
pub between_prefix :
    (p lo hi k : Bytes)
    → bytes_ltb k (p ++ lo) ≡ false
    → bytes_ltb (p ++ hi) k ≡ false
    → (r : Bytes) × (k ≡ p ++ r)
unfolding bytes_ltb
between_prefix [] lo hi k h1 h2 = (k, refl)
between_prefix (b ∷ p) lo hi [] h1 h2 = cc
between_prefix (b ∷ p) lo hi (c ∷ k) h1 h2 =
    let rest = between_prefix p lo hi k (ground arith) (ground arith) in
    (rest.0, ground (arith, rest.1))

pub bytes_eqb→eq : (a b : Bytes) → bytes_eqb a b ≡ true → a ≡ b
unfolding bytes_eqb
bytes_eqb→eq [] [] h = refl
bytes_eqb→eq [] (y ∷ b) h = cc
bytes_eqb→eq (x ∷ a) [] h = cc
bytes_eqb→eq (x ∷ a) (y ∷ b) h = ground (arith, bytes_eqb→eq a b)

pub bytes_eqb_refl : (a : Bytes) → bytes_eqb a a ≡ true
unfolding bytes_eqb
bytes_eqb_refl [] = refl
bytes_eqb_refl (x ∷ a) = ground (arith, bytes_eqb_refl a)

-- The common prefix of two strings is no matter of their equality.
pub bytes_eqb-append : (p a b : Bytes) → bytes_eqb (p ++ a) (p ++ b) ≡ bytes_eqb a b
unfolding bytes_eqb
bytes_eqb-append [] a b = refl
bytes_eqb-append (x ∷ p) a b = ground (arith, bytes_eqb-append p a b)

pub bytes_eqb-append_both :
    (p q a b : Bytes)
    → length p ≡ length q
    → bytes_eqb (p ++ a) (q ++ b) ≡ (bytes_eqb p q && bytes_eqb a b)
unfolding bytes_eqb
bytes_eqb-append_both [] [] a b h = refl
bytes_eqb-append_both [] (y ∷ q) a b h = absurd (omega arith)
bytes_eqb-append_both (x ∷ p) [] a b h = absurd (omega arith)
bytes_eqb-append_both (x ∷ p) (y ∷ q) a b h =
    ground (arith, bytes_eqb-append_both p q a b (omega arith))

pub bytes_eqb_of_ltb : (a b : Bytes) → bytes_ltb a b ≡ true → bytes_eqb a b ≡ false
unfolding bytes_ltb bytes_eqb
bytes_eqb_of_ltb [] [] h = cc
bytes_eqb_of_ltb [] (y ∷ b) h = refl
bytes_eqb_of_ltb (x ∷ a) [] h = cc
bytes_eqb_of_ltb (x ∷ a) (y ∷ b) h = ground (arith, bytes_eqb_of_ltb a b)

pub bytes_ltb_le_trans :
    (a b c : Bytes) → bytes_ltb b a ≡ false → bytes_ltb b c ≡ true → bytes_ltb a c ≡ true
unfolding bytes_ltb
bytes_ltb_le_trans [] [] [] h k = k
bytes_ltb_le_trans [] [] (z ∷ c) h k = refl
bytes_ltb_le_trans (x ∷ a) [] c h k = cc
bytes_ltb_le_trans [] (y ∷ b) [] h k = k
bytes_ltb_le_trans [] (y ∷ b) (z ∷ c) h k = refl
bytes_ltb_le_trans (x ∷ a) (y ∷ b) [] h k = k
bytes_ltb_le_trans (x ∷ a) (y ∷ b) (z ∷ c) h k = ground (arith, bytes_ltb_le_trans a b c)

pub bytes_eqb_of_gtb : (a b : Bytes) → bytes_ltb b a ≡ true → bytes_eqb a b ≡ false
unfolding bytes_ltb bytes_eqb
bytes_eqb_of_gtb [] [] h = cc
bytes_eqb_of_gtb [] (y ∷ b) h = refl
bytes_eqb_of_gtb (x ∷ a) [] h = refl
bytes_eqb_of_gtb (x ∷ a) (y ∷ b) h = ground (arith, bytes_eqb_of_gtb a b)

pub bytes_ltb_asymm : (a b : Bytes) → bytes_ltb a b ≡ true → bytes_ltb b a ≡ false
unfolding bytes_ltb
bytes_ltb_asymm [] [] h = refl
bytes_ltb_asymm [] (y ∷ b) h = refl
bytes_ltb_asymm (x ∷ a) [] h = cc
bytes_ltb_asymm (x ∷ a) (y ∷ b) h = ground (arith, bytes_ltb_asymm a b)

pub bytes_ltb_total :
    (a b : Bytes) → bytes_eqb a b ≡ false → bytes_ltb a b ≡ false → bytes_ltb b a ≡ true
unfolding bytes_ltb bytes_eqb
bytes_ltb_total [] [] h k = cc
bytes_ltb_total [] (y ∷ b) h k = cc
bytes_ltb_total (x ∷ a) [] h k = refl
bytes_ltb_total (x ∷ a) (y ∷ b) h k = ground (arith, bytes_ltb_total a b)
