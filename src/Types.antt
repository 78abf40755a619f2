-- ===== src/Types.antt =====
-- types.go: blocks, events, ticks and pools, and the conversions of `math/big` that they need.
-- A pointer that the program never sees as nil is its value; `Option` stands where nil is tested.
use uniswapv3_tick_state.Prelude.{
  ℕ, suc, ◌%◌, ◌^◌, ◌-◌, ◌<◌, arith, Bool, ◌&&◌, Option, none, some, List, ℤ, pos, negsuc, ◌+ℤ◌,
  eqb_ℤ, ltb, if◌then◌else◌, u64_mod, IsInt32, ◌≡◌,
}
use uniswapv3_tick_state.Result.{Result, ok, bind}
use uniswapv3_tick_state.Bytes.{Bytes}
use uniswapv3_tick_state.Gob.{gob_encode, gob_decode}

pub data EventType : Type 0 where
  mint burn swap : EventType
  unknown : ℕ → EventType

pub record Event (Address : Type 0) : Type 0 where
  pub address : Address
  pub type : EventType
  pub tick_lower : ℤ
  pub tick_upper : ℤ
  pub amount : ℤ
  pub tick : ℤ

pub record BlockEvent (Address : Type 0) : Type 0 where
  pub height : ℕ
  pub events : List (Event Address)

pub record TickState : Type 0 where
  pub tick : ℤ
  pub liquidity_net : ℤ

unfoldable pub new_tick_state : ℤ → TickState
new_tick_state tick = record { tick = tick; liquidity_net = pos 0 }

unfoldable pub add_liquidity : TickState → ℤ → TickState
add_liquidity t amount = record t { liquidity_net = t.liquidity_net +ℤ amount }

-- `Equal` with a nil argument answers false.
unfoldable pub equal : TickState → Option TickState → Bool
equal t none = Bool.false
equal t (some other) = eqb_ℤ t.tick other.tick && eqb_ℤ t.liquidity_net other.liquidity_net

unfoldable pub marshal_binary : TickState → Bytes
marshal_binary t = gob_encode t.liquidity_net

-- The tick of the receiver stays, and its liquidity is replaced.
unfoldable pub unmarshal_binary : TickState → Bytes → Result TickState
unmarshal_binary t b = bind (gob_decode b) (λ z. ok (record t { liquidity_net = z }))

pub record PoolGlobalState : Type 0 where
  pub height : ℤ
  pub tick_spacing : ℤ
  pub tick : ℤ

pub record Token : Type 0 where
  pub symbol : Bytes
  pub decimals : ℤ

pub record PoolState : Type 0 where
  pub token0 : Option Token
  pub token1 : Option Token
  pub global : PoolGlobalState
  pub tick_states : List TickState

-- int64(n) of a uint64
unfoldable pub to_int64 : ℕ → ℤ
to_int64 n = let r = n % u64_mod in if ltb r (2 ^ 63) then pos r else negsuc (u64_mod - 1 - r)

-- x.Int64(): the low 64 bits of the magnitude, read with a sign, and negated if x is negative.
-- The negation is of an int64 and wraps at its least value.
unfoldable pub big_int64 : ℤ → ℤ
unfolding to_int64
big_int64 (pos n) = to_int64 n
big_int64 (negsuc n) = to_int64 (u64_mod - suc n % u64_mod)

-- x.Uint64(): the low 64 bits of the magnitude, whatever the sign
unfoldable pub big_uint64 : ℤ → ℕ
big_uint64 (pos n) = n % u64_mod
big_uint64 (negsuc n) = suc n % u64_mod

pub big_uint64-lt : (z : ℤ) → big_uint64 z < u64_mod
unfolding big_uint64
big_uint64-lt (pos n) = omega arith
big_uint64-lt (negsuc n) = omega arith

-- An int32 passes through `big.Int` unchanged.
pub big_int64_self : (z : ℤ) → IsInt32 z → big_int64 z ≡ z
unfolding big_int64 to_int64
big_int64_self (pos n) h = ground arith
big_int64_self (negsuc n) h = ground arith

pub big_uint64_self : (n : ℕ) → n < u64_mod → big_uint64 (pos n) ≡ n
unfolding big_uint64
big_uint64_self n h = omega arith

pub to_int64_self : (n : ℕ) → n < 2 ^ 63 → to_int64 n ≡ pos n
unfolding to_int64
to_int64_self n h = ground arith

-- uint64(n) of an int64
unfoldable pub uint64_of_int64 : ℤ → ℕ
uint64_of_int64 (pos n) = n % u64_mod
uint64_of_int64 (negsuc n) = u64_mod - 1 - n % u64_mod
