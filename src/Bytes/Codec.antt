-- ===== src/Bytes/Codec.antt =====
-- What the fixed-width codecs read is what they wrote.
use uniswapv3_tick_state.Prelude.{
  ℕ, ◌/◌, ◌%◌, ◌^◌, ◌<◌, ◌≡◌, refl, ap, arith, u32_mod, u64_mod, length, ltb, [], ◌∷◌,
}
use uniswapv3_tick_state.Result.{ok}
use uniswapv3_tick_state.Bytes.{put_uint32, uint32, put_uint64, uint64, bytes_ltb}

pub uint32-put_uint32 : (v : ℕ) → v < u32_mod → uint32 (put_uint32 v) ≡ ok v
unfolding put_uint32 uint32
uint32-put_uint32 v h = ap ok (omega arith)

pub uint64-put_uint64 : (v : ℕ) → v < u64_mod → uint64 (put_uint64 v) ≡ ok v
unfolding put_uint64 uint64
uint64-put_uint64 v h = ap ok (omega arith)

pub length-put_uint32 : (v : ℕ) → length (put_uint32 v) ≡ 4
unfolding put_uint32
length-put_uint32 v = refl

-- Digit by digit from the lowest: the order of the last digits is that of the residues.
module _ (v w : ℕ) where
  last_digits : bytes_ltb (v % 256 ∷ []) (w % 256 ∷ []) ≡ ltb (v % 256) (w % 256)
  unfolding bytes_ltb
  last_digits = ground arith

  last_two :
      bytes_ltb (v / 2 ^ 8 % 256 ∷ v % 256 ∷ []) (w / 2 ^ 8 % 256 ∷ w % 256 ∷ [])
      ≡ ltb (v % 2 ^ 16) (w % 2 ^ 16)
  unfolding bytes_ltb
  last_two = ground arith

  last_three :
      bytes_ltb
        (v / 2 ^ 16 % 256 ∷ v / 2 ^ 8 % 256 ∷ v % 256 ∷ [])
        (w / 2 ^ 16 % 256 ∷ w / 2 ^ 8 % 256 ∷ w % 256 ∷ [])
      ≡ ltb (v % 2 ^ 24) (w % 2 ^ 24)
  unfolding bytes_ltb
  last_three = rw last_two (ground arith)

  -- The order of the written bytes is the order of the numbers.
  pub bytes_ltb-put_uint32 :
      v < u32_mod → w < u32_mod → bytes_ltb (put_uint32 v) (put_uint32 w) ≡ ltb v w
  unfolding put_uint32 bytes_ltb
  bytes_ltb-put_uint32 hv hw = rw last_three (ground arith)
