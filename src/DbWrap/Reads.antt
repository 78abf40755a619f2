-- ===== src/DbWrap/Reads.antt =====
-- The reading methods of `rocksDBWrap` over a sound engine and well-formed contents.
use mathlib.Core.Option
use uniswapv3_tick_state.Prelude.{
  ◌<◌, ◌≡◌, refl, sym, ap, ◌∙◌, Bool, true, false, inl, inr, Option, none, some, List, ◌++◌, ◌==◌,
  ℤ, pos, ltb_ℤ, IsInt32, u64_mod, if◌then◌else◌, Bool-cases, arith,
}
use uniswapv3_tick_state.Result.{Result, ok, err, panic, bind, pure, continue}
use uniswapv3_tick_state.Bytes.{Bytes}
use uniswapv3_tick_state.Gob.{gob_encode, gob_decode-gob_encode}
use uniswapv3_tick_state.Address.{AddressType}
use uniswapv3_tick_state.Engine.{Engine, Cursor}
use uniswapv3_tick_state.Engine.Laws.{EngineLaws, cursor_find}
use uniswapv3_tick_state.TickKey.{
  int32_to_ordered_bytes, height_key, min_tick, get_tick_state_key, make_current_tick_key,
  make_tick_spacing_key, make_pool_height_key, uint64_to_bytes, int32_to_bytes, bytes_to_uint64,
  bytes_to_int32,
}
use uniswapv3_tick_state.TickKey.RoundTrip.{
  bytes_to_int32-int32_to_bytes, bytes_to_uint64-uint64_to_bytes,
}
use uniswapv3_tick_state.TickKey.Order.{bytes_ltb-get_tick_state_key}
use uniswapv3_tick_state.Types.{TickState, new_tick_state, unmarshal_binary}
use uniswapv3_tick_state.Db.Contract.{View, at_tick, ListsTicks, in_ticks, pool_of}
use uniswapv3_tick_state.DbWrap
use uniswapv3_tick_state.DbWrap.{
  decode_or, decode_tick_state, collect_entries, collected, tick_puts,
}
use uniswapv3_tick_state.DbWrap.Contents.{
  read, read_tick, Encodes, view_of, is_int32_of, IsTickKey, IsWellFormed,
}
use uniswapv3_tick_state.DbWrap.Range.{
  in_ticks-IsInt32, InPool, ticks_upto, ticks_upto-IsInt32, collect_range-InPool,
}
use uniswapv3_tick_state.DbWrap.Listing.{find_tick-ticks_upto, ticks_upto-Ascend}
use uniswapv3_tick_state.DbWrap.Collect.{collected-entries_of, InPool-of}

-- What was encoded is decoded as it is read by the view.
decode_or-Encodes {κ} :
    {A : Type 0} (P : A → Type κ) (encode : A → Bytes) (decode : Bytes → Result A) (z : A)
    → ((a : A) → P a → decode (encode a) ≡ ok a)
    → (o : Option Bytes) → Encodes P encode o
    → decode_or z decode o ≡ ok (read z decode o)
unfolding decode_or
decode_or-Encodes P encode decode z trip none h = refl
decode_or-Encodes P encode decode z trip (some b) h = rw (h.2, trip h.0 h.1) refl

decode_uint64 :
    (o : Option Bytes)
    → Encodes (λ h. h < u64_mod) uint64_to_bytes o
    → decode_or 0 bytes_to_uint64 o ≡ ok (read 0 bytes_to_uint64 o)
decode_uint64 =
    decode_or-Encodes _ uint64_to_bytes bytes_to_uint64 0 bytes_to_uint64-uint64_to_bytes

decode_int32 :
    (o : Option Bytes)
    → Encodes IsInt32 int32_to_bytes o
    → decode_or (pos 0) bytes_to_int32 o ≡ ok (read (pos 0) bytes_to_int32 o)
decode_int32 =
    decode_or-Encodes IsInt32 int32_to_bytes bytes_to_int32 (pos 0) bytes_to_int32-int32_to_bytes

decode_tick_state-Encodes {κ} :
    (P : ℤ → Type κ) (n : ℤ) (o : Option Bytes)
    → Encodes P gob_encode o
    → decode_tick_state n o ≡ ok (Option.map (at_tick n) (read_tick o))
unfolding decode_tick_state new_tick_state unmarshal_binary
decode_tick_state-Encodes P n none h = refl
decode_tick_state-Encodes P n (some b) h = rw (h.2, gob_decode-gob_encode h.0) refl

-- What a cursor shows is stored, and not below its start.
below_none :
    (b : Bool) (o : Option Bytes) (v : Bytes)
    → (if b then none else o) ≡ some v
    → (o ≡ some v) × (b ≡ false)
below_none true o v h = cc
below_none false o v h = (h, refl)

continue-bind :
    {S A B : Type 0} (r : Result A) (f : A → B) (b : B) (s : S)
    → bind r (λ x. ok (f x)) ≡ ok b
    → continue r (λ x. pure (f x)) s ≡ (ok b, s)
continue-bind (ok x) f b s h = ap (λ r. (r, s)) h
continue-bind (err x) f b s h = cc
continue-bind panic f b s h = cc

not_low : (n : ℤ) → in_ticks n ≡ true → ltb_ℤ n min_tick ≡ false
not_low n h = ground arith

module _ (t : AddressType) (e : Engine) (laws : EngineLaws e) where
  open t use {Address}
  open laws use {find, get_ok, put_ok, find-put, write_ok, find-write}

  abbrev IsWf : e.State → Type 0
  IsWf s = IsWellFormed t (find s)

  abbrev view : e.State → View Address
  view s = view_of t (find s)

  pub get_finish_height_lem :
      (s : e.State) → IsWf s → DbWrap.get_finish_height t e s ≡ (ok (view s).finish, s)
  unfolding DbWrap.get_finish_height
  get_finish_height_lem s w = rw (get_ok, decode_uint64 (find s height_key) w.finish_wf) refl

  pub get_height_lem :
      (a : Address) (s : e.State) → IsWf s → DbWrap.get_height t e a s ≡ (ok ((view s).height a), s)
  unfolding DbWrap.get_height
  get_height_lem a s w =
      rw (get_ok, decode_uint64 (find s (make_pool_height_key t a)) (w.height_wf a)) refl

  pub get_current_tick_lem :
      (a : Address) (s : e.State)
      → IsWf s
      → DbWrap.get_current_tick t e a s ≡ (ok ((view s).current a), s)
  unfolding DbWrap.get_current_tick
  get_current_tick_lem a s w =
      rw (get_ok, decode_int32 (find s (make_current_tick_key t a)) (w.current_wf a)) refl

  pub get_tick_spacing_lem :
      (a : Address) (s : e.State)
      → IsWf s
      → DbWrap.get_tick_spacing t e a s ≡ (ok ((view s).spacing a), s)
  unfolding DbWrap.get_tick_spacing
  get_tick_spacing_lem a s w =
      rw (get_ok, decode_int32 (find s (make_tick_spacing_key t a)) (w.spacing_wf a)) refl

  IsTickKey-wf :
      (a : Address) (n : ℤ) (s : e.State)
      → IsWf s
      → Encodes
          (λ z. IsTickKey t (get_tick_state_key t a n))
          gob_encode
          (find s (get_tick_state_key t a n))
  unfolding get_tick_state_key
  IsTickKey-wf a n s w = w.tick_wf (t.bytes a ++ int32_to_ordered_bytes n)

  pub get_tick_state_lem :
      (a : Address) (n : ℤ) (s : e.State)
      → IsWf s
      → IsInt32 n
      → DbWrap.get_tick_state t e a n s ≡ (ok (Option.map (at_tick n) ((view s).tick a n)), s)
  unfolding DbWrap.get_tick_state
  get_tick_state_lem a n s w h =
      rw
        (
          get_ok,
          decode_tick_state-Encodes _ n (find s (get_tick_state_key t a n)) (IsTickKey-wf a n s w),
          is_int32_of n h,
        )
        refl

  module _ (a : Address) (s : e.State) (w : IsWf s) where
    cur : Cursor
    cur = e.seek s (get_tick_state_key t a min_tick)

    cur-InPool : InPool t a cur
    unfolding cur
    cur-InPool =
        InPool-of t a (find s) w cur (laws.seek-Ascends s _)
          λ k v found. below_none _ (find s k) v (sym (laws.find-seek s _ k) ∙ found)

    -- Between the bounds the cursor shows what is stored.
    shown :
        (n : ℤ)
        → (if in_ticks n then read_tick (cursor_find cur (get_tick_state_key t a n)) else none)
          ≡ (if in_ticks n then (view s).tick a n else none)
    unfolding cur
    shown n = elim (Bool-cases (in_ticks n)) [
      | inl i ↦
          rw
            (
              i,
              laws.find-seek s (get_tick_state_key t a min_tick) (get_tick_state_key t a n),
              bytes_ltb-get_tick_state_key n min_tick (in_ticks-IsInt32 n i) (omega arith) t a,
              not_low n i,
              is_int32_of n (in_ticks-IsInt32 n i),
            )
            refl
      | inr i ↦ rw i refl
    ]

    listed : List TickState
    listed = ticks_upto t a cur

    ListsTicks-listed : ListsTicks t (view s) a listed
    unfolding listed
    ListsTicks-listed = record {
      ascend = ticks_upto-Ascend t a cur (unfold cur in laws.seek-Ascends s _) cur-InPool;
      found = λ n.
          find_tick-ticks_upto t a n cur (unfold cur in laws.seek-Ascends s _) cur-InPool ∙ shown n;
    }

    -- GetTickStates on well-formed contents ends well, leaves the state, and returns each stored
    -- tick of the pool within Uniswap's bounds once, with its liquidity, in ascending order.
    pub get_tick_states_lem :
        (ts : List TickState) × (DbWrap.get_tick_states t e a s ≡ (ok ts, s))
        × ListsTicks t (view s) a ts
    unfolding DbWrap.get_tick_states listed cur
    get_tick_states_lem = (
      listed,
      rw (collect_range-InPool t a cur cur-InPool) (
          continue-bind _ (collected t a) listed s
            (collected-entries_of t a listed (ticks_upto-IsInt32 t a cur cur-InPool))),
      ListsTicks-listed,
    )

    -- GetPoolState on well-formed contents ends well and leaves the state: it returns no pool where
    -- the pool's height is 0, and elsewhere the stored height, spacing and current tick with the
    -- stored ticks within Uniswap's bounds, each once and in ascending order.
    pub get_pool_state_lem :
        (ts : List TickState) × (DbWrap.get_pool_state t e a s ≡ (ok (pool_of t (view s) a ts), s))
        × ListsTicks t (view s) a ts
    unfolding DbWrap.get_pool_state DbWrap.read_pool_state
    get_pool_state_lem =
        let (ts, reads, lists) = get_tick_states_lem in
        (
          ts,
          rw get_height_lem (elim (Bool-cases ((view s).height a == 0)) [
            | inl zero_height ↦ rw zero_height refl
            | inr stored ↦
                rw (stored, get_tick_spacing_lem a s w, get_current_tick_lem a s w, reads) refl
          ]),
          lists,
        )
