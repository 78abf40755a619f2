-- ===== src/TickKey.antt =====
-- tick_key.go, and the key builders and integer codecs of db_wrap.go: how an address and a tick
-- become a key of the database.
pub mod RoundTrip
pub mod Order
use uniswapv3_tick_state.Prelude.{
  ℕ, ◌+◌, ◌-◌, ◌%◌, ◌^◌, List, [], ◌∷◌, ◌++◌, ℤ, negsuc, pos, u32_mod, to_uint32, int32_of_uint,
  length, take, drop, ◌==◌, if◌then◌else◌,
}
use uniswapv3_tick_state.Result.{Result, ok, panic, bind}
use uniswapv3_tick_state.Bytes.{Bytes, put_uint32, uint32, put_uint64, uint64}
use uniswapv3_tick_state.Address.{AddressType}

-- "1:" to "5:"
abbrev pub height_key : Bytes
height_key = b'1' ∷ b':' ∷ []

abbrev pub key_prefix_tick_state : Bytes
key_prefix_tick_state = b'2' ∷ b':' ∷ []

abbrev pub key_prefix_current_tick : Bytes
key_prefix_current_tick = b'3' ∷ b':' ∷ []

abbrev pub key_prefix_tick_spacing : Bytes
key_prefix_tick_spacing = b'4' ∷ b':' ∷ []

abbrev pub key_prefix_pool_height : Bytes
key_prefix_pool_height = b'5' ∷ b':' ∷ []

abbrev pub tick_state_key_len : ℕ
tick_state_key_len = 26

abbrev pub min_tick : ℤ
min_tick = negsuc 887271

abbrev pub max_tick : ℤ
max_tick = pos 887272

unfoldable pub int32_to_ordered_bytes : ℤ → Bytes
int32_to_ordered_bytes n = put_uint32 ((to_uint32 n + 0x80000000) % u32_mod)

-- The subtraction is on uint32 and wraps.
unfoldable pub ordered_bytes_to_int32 : Bytes → Result ℤ
ordered_bytes_to_int32 b =
    if length b == 4
    then bind (uint32 b) (λ w. ok (int32_of_uint ((w + u32_mod - 0x80000000) % u32_mod)))
    else ok (pos 0)

unfoldable pub int32_to_bytes : ℤ → Bytes
int32_to_bytes n = put_uint32 (to_uint32 n)

unfoldable pub bytes_to_int32 : Bytes → Result ℤ
bytes_to_int32 b = bind (uint32 b) (λ w. ok (int32_of_uint w))

unfoldable pub uint64_to_bytes : ℕ → Bytes
uint64_to_bytes n = put_uint64 n

unfoldable pub bytes_to_uint64 : Bytes → Result ℕ
bytes_to_uint64 b = uint64 b

-- `BytesToTickStateKey` copies the bytes into the array, after its length check.
unfoldable pub bytes_to_tick_state_key : Bytes → Result Bytes
bytes_to_tick_state_key b = if length b == tick_state_key_len then ok b else panic

-- `TickStateKey.GetTick`
unfoldable pub get_tick : Bytes → Result ℤ
get_tick k = ordered_bytes_to_int32 (take 4 (drop 22 k))

module _ (t : AddressType) where
  open t use {Address, bytes, from_bytes}

  -- The parts fill the array: 2 bytes of prefix, 20 of the address, 4 of the tick.
  unfoldable pub get_tick_state_key : Address → ℤ → Bytes
  get_tick_state_key addr tick = key_prefix_tick_state ++ bytes addr ++ int32_to_ordered_bytes tick

  -- `TickStateKey.GetAddress`
  unfoldable pub get_address : Bytes → Address
  get_address k = from_bytes (take 20 (drop 2 k))

  unfoldable pub make_current_tick_key : Address → Bytes
  make_current_tick_key addr = key_prefix_current_tick ++ bytes addr

  unfoldable pub make_tick_spacing_key : Address → Bytes
  make_tick_spacing_key addr = key_prefix_tick_spacing ++ bytes addr

  unfoldable pub make_pool_height_key : Address → Bytes
  make_pool_height_key addr = key_prefix_pool_height ++ bytes addr
