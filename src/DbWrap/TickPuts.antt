-- ===== src/DbWrap/TickPuts.antt =====
-- The same for a write of a tick state, and for a list of them.
use uniswapv3_tick_state.Prelude.{
  ◌≡◌, refl, sym, ap, ◌∙◌, Bool, true, false, inl, inr, ◌&&◌, Option, none, some, List, [], ◌∷◌, ℤ,
  eqb_ℤ, eqb_ℤ→eq, IsInt32, if◌then◌else◌, Bool-cases, All, arith,
}
use uniswapv3_tick_state.Result.{ok, bind}
use uniswapv3_tick_state.Bytes.{Bytes}
use uniswapv3_tick_state.Bytes.Order.{bytes_eqb→eq}
use uniswapv3_tick_state.Gob.{gob_encode, gob_decode-gob_encode}
use uniswapv3_tick_state.Address.{AddressType, addr_eqb}
use uniswapv3_tick_state.Engine.Laws.{Contents, contents_put, apply_ops}
use uniswapv3_tick_state.TickKey.{get_tick_state_key}
use uniswapv3_tick_state.TickKey.Order.{bytes_eqb-get_tick_state_key}
use uniswapv3_tick_state.Types.{TickState, marshal_binary}
use uniswapv3_tick_state.Db.Contract.{with_tick, with_ticks}
use uniswapv3_tick_state.DbWrap.{tick_puts}
use uniswapv3_tick_state.DbWrap.Contents.{
  ok_or, read_tick, is_int32, is_int32_of, IsInt32-of, view_of, IsWellFormed,
}
use uniswapv3_tick_state.DbWrap.Puts.{View-path, Encodes-if, KeyKinds}

-- The read of a tick under the test that it is an int32, after a write under a test of keys.
tick_if :
    (i q q' : Bool) (z : ℤ) (o : Option Bytes)
    → (i ≡ true → q ≡ q')
    → (i ≡ false → q' ≡ false)
    → (if i then read_tick (if q then some (gob_encode z) else o) else none)
      ≡ (if q' then some z else if i then read_tick o else none)
tick_if true q true z o h k =
    rw (h refl) (ap (λ r. ok_or none (bind r (λ y. ok (some y)))) (gob_decode-gob_encode z))
tick_if true q false z o h k = rw (h refl)
tick_if false q true z o h k = cc (k refl)
tick_if false q false z o h k = refl

module _ (t : AddressType) where
  open t use {Address}

  module _ (a : Address) (ts : TickState) (c : Contents) (h : IsInt32 ts.tick) where
    other_tick : (m : ℤ) → is_int32 m ≡ false → eqb_ℤ ts.tick m ≡ false
    other_tick m not_int = elim (Bool-cases (eqb_ℤ ts.tick m)) [
      | inl same ↦
          let e : ts.tick ≡ m = eqb_ℤ→eq ts.tick m same in
          cc (sym not_int ∙ sym (ap is_int32 e) ∙ is_int32_of ts.tick h)
      | inr differ ↦ differ
    ]

    and_false : (p q : Bool) → q ≡ false → (p && q) ≡ false
    and_false p q e = ground arith

    pub view-put_tick :
        view_of t (contents_put (get_tick_state_key t a ts.tick) (marshal_binary ts) c)
        ≡ with_tick t a ts (view_of t c)
    unfolding marshal_binary KeyKinds
    view-put_tick =
        View-path _ _ refl (λ b. refl) (λ b. refl) (λ b. refl)
          (λ b m.
            tick_if (is_int32 m) _ (addr_eqb t a b && eqb_ℤ ts.tick m) ts.liquidity_net _
              (λ i. bytes_eqb-get_tick_state_key ts.tick m h (IsInt32-of m i) t a b)
              (λ n. and_false _ _ (other_tick m n)))

    pub wf-put_tick :
        IsWellFormed t c
        → IsWellFormed t (contents_put (get_tick_state_key t a ts.tick) (marshal_binary ts) c)
    unfolding marshal_binary KeyKinds
    wf-put_tick w = record {
      finish_wf = w.finish_wf;
      height_wf = w.height_wf;
      current_wf = w.current_wf;
      spacing_wf = w.spacing_wf;
      tick_wf = λ r.
          Encodes-if _ gob_encode _ ts.liquidity_net _
            (λ e. (a, ts.tick, h, sym (bytes_eqb→eq _ _ e))) (w.tick_wf r);
    }

  module _ (a : Address) where
    pub view-tick_puts :
        (l : List TickState) (c : Contents)
        → All (λ ts. IsInt32 ts.tick) l
        → view_of t (apply_ops (tick_puts t a l) c) ≡ with_ticks t a l (view_of t c)
    unfolding tick_puts
    view-tick_puts [] c h = refl
    view-tick_puts (ts ∷ l) c h =
        view-tick_puts l _ h.1 ∙ ap (with_ticks t a l) (view-put_tick a ts c h.0)

    pub wf-tick_puts :
        (l : List TickState) (c : Contents)
        → All (λ ts. IsInt32 ts.tick) l
        → IsWellFormed t c
        → IsWellFormed t (apply_ops (tick_puts t a l) c)
    unfolding tick_puts
    wf-tick_puts [] c h w = w
    wf-tick_puts (ts ∷ l) c h w = wf-tick_puts l _ h.1 (wf-put_tick a ts c h.0 w)
