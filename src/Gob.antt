-- ===== src/Gob.antt =====
-- `GobEncode` and `GobDecode` of `math/big.Int`: one byte for the version and the sign, then the
-- bytes of the magnitude, the highest first and none for 0.
use uniswapv3_tick_state.Prelude.{
  ℕ, zero, suc, ◌+◌, ◌*◌, ◌/◌, ◌%◌, ◌≤◌, ◌≡◌, ◌∙◌, ap, [], ◌∷◌, arith, ◌==◌, if◌then◌else◌, ℤ, pos,
  negsuc, neg, eq_of_parts,
}
use uniswapv3_tick_state.Result.{Result, ok, err, gob_version}
use uniswapv3_tick_state.Bytes.{Bytes}

-- fuel n is enough for n, which falls with each division
be_digits : ℕ → ℕ → Bytes → Bytes
be_digits zero n acc = acc
be_digits (suc fuel) n acc =
    let rest = be_digits fuel (n / 256) (n % 256 ∷ acc) in if n == 0 then acc else rest

be_value : ℕ → Bytes → ℕ
be_value v [] = v
be_value v (b ∷ bs) = be_value (v * 256 + b) bs

unfoldable pub gob_encode : ℤ → Bytes
unfolding be_digits
gob_encode (pos n) = 2 ∷ be_digits n n []
gob_encode (negsuc n) = 3 ∷ be_digits (suc n) (suc n) []

-- The empty string stands for a nil value, which is read as 0.
unfoldable pub gob_decode : Bytes → Result ℤ
unfolding be_value neg
gob_decode [] = ok (pos 0)
gob_decode (b ∷ bs) =
    let v = be_value 0 bs in
    if b / 2 == 1 then ok (if b % 2 == 0 then pos v else neg (pos v)) else err gob_version

be_value-be_digits :
    (fuel n : ℕ) (acc : Bytes) → n ≤ fuel → be_value 0 (be_digits fuel n acc) ≡ be_value n acc
unfolding be_digits be_value
be_value-be_digits zero n acc h = ap (λ v. be_value v acc) (omega arith)
be_value-be_digits (suc fuel) n acc h =
    let same : n / 256 * 256 + n % 256 ≡ n = omega arith in
    ground (arith, be_value-be_digits fuel (n / 256) (n % 256 ∷ acc), ap (λ v. be_value v acc) same)

-- Every integer is read back as it was written.
pub gob_decode-gob_encode : (z : ℤ) → gob_decode (gob_encode z) ≡ ok z
unfolding gob_decode gob_encode
gob_decode-gob_encode (pos n) =
    let e : be_value 0 (be_digits n n []) ≡ n = be_value-be_digits n n [] (omega arith) in
    ap (λ v. ok (pos v)) e
gob_decode-gob_encode (negsuc n) =
    let e : be_value 0 (be_digits (suc n) (suc n) []) ≡ suc n =
      be_value-be_digits (suc n) (suc n) [] (omega arith) in
    ap (λ v. ok (neg (pos v))) e ∙ ap ok (eq_of_parts _ _ (unfold neg in ground arith))
