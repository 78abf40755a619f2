-- ===== src/DbWrap/Deletes.antt =====
-- What the batch of `DeletePoolState` leaves.
use mathlib.Core.Path.{ap₂}
use uniswapv3_tick_state.Prelude.{
  ◌≡◌, refl, sym, ap, ◌∙◌, Bool, true, false, inl, inr, not, ◌&&◌, Option, none, List, [], ◌∷◌, ℤ,
  pos, ltb_ℤ, IsInt32, if◌then◌else◌, Bool-cases, &&-eq-true, arith,
}
use uniswapv3_tick_state.Result.{Result}
use uniswapv3_tick_state.Bytes.{Bytes, bytes_ltb}
use uniswapv3_tick_state.Bytes.Order.{bytes_ltb_asymm}
use uniswapv3_tick_state.Address.{AddressType, addr_eqb, addr_eqb→eq, addr_eqb_refl}
use uniswapv3_tick_state.Engine.{BatchOp}
use uniswapv3_tick_state.Engine.Laws.{Contents, apply_ops, in_range}
use uniswapv3_tick_state.TickKey.{
  min_tick, max_tick, get_tick_state_key, make_current_tick_key, make_tick_spacing_key,
  make_pool_height_key, uint64_to_bytes, int32_to_bytes, bytes_to_uint64, bytes_to_int32,
}
use uniswapv3_tick_state.Gob.{gob_encode}
use uniswapv3_tick_state.TickKey.Order.{bytes_ltb-get_tick_state_key}
use uniswapv3_tick_state.Db.Contract.{without_pool}
use uniswapv3_tick_state.DbWrap.Contents.{
  read, read_tick, is_int32, IsInt32-of, Encodes, view_of, IsWellFormed,
}
use uniswapv3_tick_state.DbWrap.Puts.{View-path, KeyKinds}
use uniswapv3_tick_state.DbWrap.Collect.{split_key, same_address}

read_unless {ℓ} :
    {A : Type ℓ} (b : Bool) (z : A) (decode : Bytes → Result A) (o : Option Bytes)
    → read z decode (if b then none else o) ≡ (if b then z else read z decode o)
read_unless true z decode o = refl
read_unless false z decode o = refl

tick_unless :
    (i q q' : Bool) (o : Option Bytes)
    → (i ≡ true → q ≡ q')
    → (if i then read_tick (if q then none else o) else none)
      ≡ (if q' then none else if i then read_tick o else none)
tick_unless true q true o h = rw (h refl)
tick_unless true q false o h = rw (h refl)
tick_unless false q true o h = refl
tick_unless false q false o h = refl

Encodes-unless {ℓ κ} :
    {A : Type ℓ} (P : A → Type κ) (encode : A → Bytes) (b : Bool) (o : Option Bytes)
    → Encodes P encode o
    → Encodes P encode (if b then none else o)
Encodes-unless P encode true o h = tt
Encodes-unless P encode false o h = h

not-true : (b : Bool) → not b ≡ true → b ≡ false
not-true true h = cc
not-true false h = refl

module _ (t : AddressType) (a : t.Address) where
  abbrev pub from : Bytes
  from = get_tick_state_key t a min_tick

  abbrev pub upto : Bytes
  upto = get_tick_state_key t a max_tick

  -- The batch.
  abbrev pub deletes : List BatchOp
  deletes =
      BatchOp.delete (make_pool_height_key t a)
      ∷ BatchOp.delete (make_tick_spacing_key t a)
      ∷ BatchOp.delete (make_current_tick_key t a)
      ∷ BatchOp.delete_range from upto
      ∷ []

  -- A key in the deleted range is one of the pool.
  in_range-address :
      (b : t.Address) (m : ℤ)
      → in_range from upto (get_tick_state_key t b m) ≡ true
      → addr_eqb t a b ≡ true
  in_range-address b m h =
      let (above, below) = &&-eq-true _ _ h in
      let j = get_tick_state_key t b m in
      let (r, split) = split_key t a j (not-true _ above) (bytes_ltb_asymm j upto below) in
      ap (addr_eqb t a) (sym (same_address t a b m r (sym split))) ∙ addr_eqb_refl t a

  abbrev deleted : ℤ → Bool
  deleted m = not (ltb_ℤ m min_tick) && ltb_ℤ m max_tick

  in_range_own : (m : ℤ) → IsInt32 m → in_range from upto (get_tick_state_key t a m) ≡ deleted m
  in_range_own m h =
      ap₂ (λ x y. not x && y) (bytes_ltb-get_tick_state_key m min_tick h (omega arith) t a)
        (bytes_ltb-get_tick_state_key m max_tick h (omega arith) t a)

  in_range-key :
      (b : t.Address) (m : ℤ)
      → IsInt32 m
      → in_range from upto (get_tick_state_key t b m) ≡ (addr_eqb t a b && deleted m)
  in_range-key b m h = elim (Bool-cases (addr_eqb t a b)) [
    | inl same ↦
        let e : a ≡ b = addr_eqb→eq t a b same in
        ap (λ x. in_range from upto (get_tick_state_key t x m)) (sym e)
        ∙ in_range_own m h
        ∙ sym (ap (λ x. x && deleted m) same)
    | inr other ↦ elim (Bool-cases (in_range from upto (get_tick_state_key t b m))) [
      | inl inside ↦ cc (sym other ∙ in_range-address b m inside)
      | inr outside ↦ outside ∙ sym (ap (λ x. x && deleted m) other)
    ]
  ]

  pub view-deletes :
      (c : Contents) → view_of t (apply_ops deletes c) ≡ without_pool t a (view_of t c)
  unfolding KeyKinds bytes_ltb
  view-deletes c =
      View-path _ _ refl (λ b. read_unless (addr_eqb t a b) 0 bytes_to_uint64 _)
        (λ b. read_unless (addr_eqb t a b) (pos 0) bytes_to_int32 _)
        (λ b. read_unless (addr_eqb t a b) (pos 0) bytes_to_int32 _)
        (λ b m. tick_unless (is_int32 m) _ _ _ (λ i. in_range-key b m (IsInt32-of m i)))

  pub wf-deletes : (c : Contents) → IsWellFormed t c → IsWellFormed t (apply_ops deletes c)
  unfolding KeyKinds bytes_ltb
  wf-deletes c w = record {
    finish_wf = w.finish_wf;
    height_wf = λ b. Encodes-unless _ uint64_to_bytes (addr_eqb t a b) _ (w.height_wf b);
    current_wf = λ b. Encodes-unless _ int32_to_bytes (addr_eqb t a b) _ (w.current_wf b);
    spacing_wf = λ b. Encodes-unless _ int32_to_bytes (addr_eqb t a b) _ (w.spacing_wf b);
    tick_wf = λ r. Encodes-unless _ gob_encode _ _ (w.tick_wf r);
  }
