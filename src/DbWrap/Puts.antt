-- ===== src/DbWrap/Puts.antt =====
-- One write of a global of a pool: what it does to the view, and that it keeps the contents well
-- formed.
use mathlib.Core.Path.{fun_ext}
use uniswapv3_tick_state.Prelude.{
  ℕ, ◌<◌, ◌≡◌, refl, ap, Bool, true, false, Option, some, ℤ, pos, IsInt32, u64_mod, if◌then◌else◌,
}
use uniswapv3_tick_state.Result.{Result}
use uniswapv3_tick_state.Bytes.{Bytes, bytes_eqb}
use uniswapv3_tick_state.Address.{AddressType, addr_eqb}
use uniswapv3_tick_state.Engine.Laws.{Contents, contents_put}
use uniswapv3_tick_state.TickKey.{
  height_key, int32_to_bytes, bytes_to_int32, uint64_to_bytes, bytes_to_uint64, get_tick_state_key,
  make_current_tick_key, make_tick_spacing_key, make_pool_height_key,
}
use uniswapv3_tick_state.TickKey.RoundTrip.{
  bytes_to_int32-int32_to_bytes, bytes_to_uint64-uint64_to_bytes,
}
use uniswapv3_tick_state.Db.Contract.{View, with_finish, with_height, with_current, with_spacing}
use uniswapv3_tick_state.DbWrap.Contents.{ok_or, read, Encodes, view_of, IsWellFormed}

-- To unfold this is to unfold what tells the keys of different kinds apart.
unfoldable pub KeyKinds : Type 0
unfolding bytes_eqb make_pool_height_key make_current_tick_key make_tick_spacing_key
    get_tick_state_key
KeyKinds = Unit

-- Views are equal if they answer alike.
pub View-path :
    {A : Type 0} (v w : View A)
    → v.finish ≡ w.finish
    → ((a : A) → v.height a ≡ w.height a)
    → ((a : A) → v.current a ≡ w.current a)
    → ((a : A) → v.spacing a ≡ w.spacing a)
    → ((a : A) (n : ℤ) → v.tick a n ≡ w.tick a n)
    → v ≡ w
View-path v w f h c s k = λ i. record {
  finish = f i;
  height = fun_ext h i;
  current = fun_ext c i;
  spacing = fun_ext s i;
  tick = λ a. fun_ext (k a) i;
}

read_uint64 : (h : ℕ) → h < u64_mod → read 0 bytes_to_uint64 (some (uint64_to_bytes h)) ≡ h
read_uint64 h lt = ap (ok_or 0) (bytes_to_uint64-uint64_to_bytes h lt)

read_int32 : (n : ℤ) → IsInt32 n → read (pos 0) bytes_to_int32 (some (int32_to_bytes n)) ≡ n
read_int32 n h = ap (ok_or (pos 0)) (bytes_to_int32-int32_to_bytes n h)

-- A read under a test of keys.
read_if {ℓ} :
    {A : Type ℓ} (b : Bool) (z a : A) (decode : Bytes → Result A) (v : Bytes) (o : Option Bytes)
    → read z decode (some v) ≡ a
    → read z decode (if b then some v else o) ≡ (if b then a else read z decode o)
read_if true z a decode v o h = h
read_if false z a decode v o h = refl

pub Encodes-if {ℓ κ} :
    {A : Type ℓ} (P : A → Type κ) (encode : A → Bytes) (b : Bool) (a : A) (o : Option Bytes)
    → (b ≡ true → P a)
    → Encodes P encode o
    → Encodes P encode (if b then some (encode a) else o)
Encodes-if P encode true a o h k = (a, h refl, refl)
Encodes-if P encode false a o h k = k

module _ (t : AddressType) where
  open t use {Address}

  module _ (h : ℕ) (c : Contents) (lt : h < u64_mod) where
    pub view-put_finish :
        view_of t (contents_put height_key (uint64_to_bytes h) c) ≡ with_finish t h (view_of t c)
    unfolding KeyKinds
    view-put_finish =
        View-path _ _ (read_uint64 h lt) (λ a. refl) (λ a. refl) (λ a. refl) (λ a n. refl)

    pub wf-put_finish :
        IsWellFormed t c → IsWellFormed t (contents_put height_key (uint64_to_bytes h) c)
    unfolding KeyKinds
    wf-put_finish w = record {
      finish_wf = (h, lt, refl);
      height_wf = w.height_wf;
      current_wf = w.current_wf;
      spacing_wf = w.spacing_wf;
      tick_wf = w.tick_wf;
    }

  module _ (a : Address) (h : ℕ) (c : Contents) (lt : h < u64_mod) where
    pub view-put_height :
        view_of t (contents_put (make_pool_height_key t a) (uint64_to_bytes h) c)
        ≡ with_height t a h (view_of t c)
    unfolding KeyKinds
    view-put_height =
        View-path _ _ refl
          (λ b. read_if (addr_eqb t a b) 0 h bytes_to_uint64 _ _ (read_uint64 h lt)) (λ b. refl)
          (λ b. refl) (λ b n. refl)

    pub wf-put_height :
        IsWellFormed t c
        → IsWellFormed t (contents_put (make_pool_height_key t a) (uint64_to_bytes h) c)
    unfolding KeyKinds
    wf-put_height w = record {
      finish_wf = w.finish_wf;
      height_wf = λ b. Encodes-if _ uint64_to_bytes (addr_eqb t a b) h _ (λ _. lt) (w.height_wf b);
      current_wf = w.current_wf;
      spacing_wf = w.spacing_wf;
      tick_wf = w.tick_wf;
    }

  module _ (a : Address) (n : ℤ) (c : Contents) (h : IsInt32 n) where
    pub view-put_current :
        view_of t (contents_put (make_current_tick_key t a) (int32_to_bytes n) c)
        ≡ with_current t a n (view_of t c)
    unfolding KeyKinds
    view-put_current =
        View-path _ _ refl (λ b. refl)
          (λ b. read_if (addr_eqb t a b) (pos 0) n bytes_to_int32 _ _ (read_int32 n h)) (λ b. refl)
          (λ b m. refl)

    pub wf-put_current :
        IsWellFormed t c
        → IsWellFormed t (contents_put (make_current_tick_key t a) (int32_to_bytes n) c)
    unfolding KeyKinds
    wf-put_current w = record {
      finish_wf = w.finish_wf;
      height_wf = w.height_wf;
      current_wf =
          λ b. Encodes-if IsInt32 int32_to_bytes (addr_eqb t a b) n _ (λ _. h) (w.current_wf b);
      spacing_wf = w.spacing_wf;
      tick_wf = w.tick_wf;
    }

    pub view-put_spacing :
        view_of t (contents_put (make_tick_spacing_key t a) (int32_to_bytes n) c)
        ≡ with_spacing t a n (view_of t c)
    unfolding KeyKinds
    view-put_spacing =
        View-path _ _ refl (λ b. refl) (λ b. refl)
          (λ b. read_if (addr_eqb t a b) (pos 0) n bytes_to_int32 _ _ (read_int32 n h))
          (λ b m. refl)

    pub wf-put_spacing :
        IsWellFormed t c
        → IsWellFormed t (contents_put (make_tick_spacing_key t a) (int32_to_bytes n) c)
    unfolding KeyKinds
    wf-put_spacing w = record {
      finish_wf = w.finish_wf;
      height_wf = w.height_wf;
      current_wf = w.current_wf;
      spacing_wf =
          λ b. Encodes-if IsInt32 int32_to_bytes (addr_eqb t a b) n _ (λ _. h) (w.spacing_wf b);
      tick_wf = w.tick_wf;
    }
