-- ===== src/TickKey/RoundTrip.antt =====
-- What a key or a value is built from is read back from it.
use uniswapv3_tick_state.Prelude.{
  ℕ, ◌+◌, ◌-◌, ◌%◌, ◌<◌, ◌≡◌, ap, ◌∙◌, ℤ, IsInt32, u32_mod, u64_mod, to_uint32, to_uint32-lt,
  int32_of_uint-to_uint32, length, take-append, take-length, drop-append, length-append, arith,
}
use uniswapv3_tick_state.Result.{ok}
use uniswapv3_tick_state.Bytes.Codec.{uint32-put_uint32, uint64-put_uint64, length-put_uint32}
use uniswapv3_tick_state.Address.{AddressType}
use uniswapv3_tick_state.TickKey.{
  int32_to_ordered_bytes, ordered_bytes_to_int32, int32_to_bytes, bytes_to_int32, uint64_to_bytes,
  bytes_to_uint64, bytes_to_tick_state_key, get_tick, get_tick_state_key, get_address,
}

-- Every int32 is read back from its four bytes.
pub bytes_to_int32-int32_to_bytes : (n : ℤ) → IsInt32 n → bytes_to_int32 (int32_to_bytes n) ≡ ok n
unfolding bytes_to_int32 int32_to_bytes
bytes_to_int32-int32_to_bytes n h =
    rw (uint32-put_uint32 _ (to_uint32-lt n)) (ap ok (int32_of_uint-to_uint32 n h))

pub bytes_to_uint64-uint64_to_bytes :
    (n : ℕ) → n < u64_mod → bytes_to_uint64 (uint64_to_bytes n) ≡ ok n
unfolding bytes_to_uint64 uint64_to_bytes
bytes_to_uint64-uint64_to_bytes n h = uint64-put_uint64 n h

pub length-int32_to_ordered_bytes : (n : ℤ) → length (int32_to_ordered_bytes n) ≡ 4
unfolding int32_to_ordered_bytes
length-int32_to_ordered_bytes n = length-put_uint32 _

-- Adding and taking away half the modulus, with wrap-around.
shift_back :
    (w : ℕ) → w < u32_mod → ((w + 0x80000000) % u32_mod + u32_mod - 0x80000000) % u32_mod ≡ w
shift_back w h = omega arith

-- The order-preserving code of a tick is read back.
pub ordered_bytes_to_int32_lem :
    (n : ℤ) → IsInt32 n → ordered_bytes_to_int32 (int32_to_ordered_bytes n) ≡ ok n
unfolding ordered_bytes_to_int32 int32_to_ordered_bytes
ordered_bytes_to_int32_lem n h =
    rw
      (
        length-put_uint32,
        uint32-put_uint32 ((to_uint32 n + 0x80000000) % u32_mod) (omega arith),
        shift_back (to_uint32 n) (to_uint32-lt n),
      )
      (ap ok (int32_of_uint-to_uint32 n h))

module _ (t : AddressType) where
  open t use {Address, bytes, from_bytes, length-bytes, from_bytes-bytes}

  pub length-get_tick_state_key : (a : Address) (n : ℤ) → length (get_tick_state_key t a n) ≡ 26
  unfolding get_tick_state_key
  length-get_tick_state_key a n = omega (
    arith,
    length-append (bytes a) (int32_to_ordered_bytes n),
    length-bytes a,
    length-int32_to_ordered_bytes n,
  )

  -- The tick of an int32 is read back from the key of any address and that tick.
  pub get_tick-get_tick_state_key :
      (a : Address) (n : ℤ) → IsInt32 n → get_tick (get_tick_state_key t a n) ≡ ok n
  unfolding get_tick get_tick_state_key
  get_tick-get_tick_state_key a n h =
      rw
        (
          drop-append 20 (bytes a) (int32_to_ordered_bytes n) (length-bytes a),
          take-length 4 (int32_to_ordered_bytes n) (length-int32_to_ordered_bytes n),
        )
        (ordered_bytes_to_int32_lem n h)

  -- The address is read back from the key of that address and any tick.
  pub get_address-get_tick_state_key :
      (a : Address) (n : ℤ) → get_address t (get_tick_state_key t a n) ≡ a
  unfolding get_address get_tick_state_key
  get_address-get_tick_state_key a n =
      ap from_bytes (take-append 20 (bytes a) (int32_to_ordered_bytes n) (length-bytes a))
      ∙ from_bytes-bytes a

  -- The bytes of a key are taken as a key: they are 26.
  pub bytes_to_tick_state_key_lem :
      (a : Address) (n : ℤ)
      → bytes_to_tick_state_key (get_tick_state_key t a n) ≡ ok (get_tick_state_key t a n)
  unfolding bytes_to_tick_state_key
  bytes_to_tick_state_key_lem a n = rw length-get_tick_state_key
