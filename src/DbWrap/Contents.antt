-- ===== src/DbWrap/Contents.antt =====
-- What the stored bytes mean, and which contents of the engine are well formed.
use uniswapv3_tick_state.Prelude.{
  ◌<◌, ◌≡◌, Bool, true, not, ◌&&◌, Option, none, some, ◌++◌, ℤ, pos, negsuc, ◌^◌, ◌-◌, ltb_ℤ,
  IsInt32, u64_mod, if◌then◌else◌, arith,
}
use uniswapv3_tick_state.Result.{Result, ok, err, panic, bind}
use uniswapv3_tick_state.Bytes.{Bytes}
use uniswapv3_tick_state.Gob.{gob_encode, gob_decode}
use uniswapv3_tick_state.Address.{AddressType}
use uniswapv3_tick_state.Engine.Laws.{Contents}
use uniswapv3_tick_state.TickKey.{
  height_key, key_prefix_tick_state, int32_to_bytes, bytes_to_int32, uint64_to_bytes,
  bytes_to_uint64, get_tick_state_key, make_current_tick_key, make_tick_spacing_key,
  make_pool_height_key,
}
use uniswapv3_tick_state.Db.Contract.{View}

-- The value of a stored string, or a default where nothing readable is stored.
abbrev pub ok_or {ℓ} : {A : Type ℓ} → A → Result A → A
ok_or z (ok a) = a
ok_or z (err e) = z
ok_or z panic = z

abbrev pub read {ℓ} : {A : Type ℓ} → A → (Bytes → Result A) → Option Bytes → A
read z decode none = z
read z decode (some b) = ok_or z (decode b)

abbrev pub read_tick : Option Bytes → Option ℤ
read_tick none = none
read_tick (some b) = ok_or none (bind (gob_decode b) (λ z. ok (some z)))

unfoldable pub is_int32 : ℤ → Bool
is_int32 n = not (ltb_ℤ n (negsuc (2 ^ 31 - 1))) && not (ltb_ℤ (pos (2 ^ 31 - 1)) n)

pub is_int32_of : (n : ℤ) → IsInt32 n → is_int32 n ≡ true
unfolding is_int32
is_int32_of n h = ground arith

pub IsInt32-of : (n : ℤ) → is_int32 n ≡ true → IsInt32 n
unfolding is_int32
IsInt32-of n h = ground arith

-- A string that encodes a value in the range of its type.
abbrev pub Encodes {ℓ κ} : {A : Type ℓ} → (A → Type κ) → (A → Bytes) → Option Bytes → Type (ℓ ⊔ κ)
Encodes P encode none = Unit
Encodes {A} P encode (some b) = (a : A) × P a × (b ≡ encode a)

module _ (t : AddressType) where
  open t use {Address}

  abbrev pub view_of : Contents → View Address
  view_of c = record {
    finish = read 0 bytes_to_uint64 (c height_key);
    height = λ a. read 0 bytes_to_uint64 (c (make_pool_height_key t a));
    current = λ a. read (pos 0) bytes_to_int32 (c (make_current_tick_key t a));
    spacing = λ a. read (pos 0) bytes_to_int32 (c (make_tick_spacing_key t a));
    tick = λ a n. if is_int32 n then read_tick (c (get_tick_state_key t a n)) else none;
  }

  abbrev pub IsTickKey : Bytes → Type 0
  IsTickKey k = (a : Address) × (n : ℤ) × IsInt32 n × (k ≡ get_tick_state_key t a n)

  -- Every stored value is one that the program encoded, and every key with the prefix of tick
  -- states is the key of an address and a tick.
  pub record IsWellFormed (c : Contents) : Type 0 where
    pub finish_wf : Encodes (λ h. h < u64_mod) uint64_to_bytes (c height_key)
    pub height_wf :
        (a : Address) → Encodes (λ h. h < u64_mod) uint64_to_bytes (c (make_pool_height_key t a))
    pub current_wf : (a : Address) → Encodes IsInt32 int32_to_bytes (c (make_current_tick_key t a))
    pub spacing_wf : (a : Address) → Encodes IsInt32 int32_to_bytes (c (make_tick_spacing_key t a))
    pub tick_wf :
        (r : Bytes)
        → Encodes
            (λ z. IsTickKey (key_prefix_tick_state ++ r))
            gob_encode
            (c (key_prefix_tick_state ++ r))
