-- ===== src/Reactor/Replay.antt =====
-- The specification of a block: a pool is changed by its first event of a block alone, and a block
-- that was applied is not applied again.
use uniswapv3_tick_state.Prelude.{
  ℕ, ◌<◌, ◌≤◌, ◌≡◌, refl, ap, ◌∙◌, true, inl, inr, List, [], ◌∷◌, leb, if◌then◌else◌, Bool-cases,
  All, arith,
}
use uniswapv3_tick_state.Address.{AddressType, addr_eqb, addr_eqb_refl}
use uniswapv3_tick_state.Types.{Event, EventType}
use uniswapv3_tick_state.Db.Contract.{View, with_finish}
use uniswapv3_tick_state.Reactor.Spec.{apply_by, apply_one, apply_all, Stored}

module _ (t : AddressType) where
  open t use {Address}

  height-apply_by :
      (k : EventType) (e : Event Address) (v : View Address) → (apply_by t k e v).height ≡ v.height
  height-apply_by EventType.mint e v = refl
  height-apply_by EventType.burn e v = refl
  height-apply_by EventType.swap e v = refl
  height-apply_by (EventType.unknown n) e v = refl

  -- The height of a pool after one event.
  height-apply_one :
      (h : ℕ) (e : Event Address) (v : View Address) (b : Address)
      → (apply_one t h e v).height b ≡ (
          if leb h (v.height e.address)
          then v.height b
          else if addr_eqb t e.address b
          then h
          else v.height b)
  unfolding apply_one
  height-apply_one h e v b = elim (Bool-cases (leb h (v.height e.address))) [
    | inl reached ↦ rw reached refl
    | inr below ↦ rw (below, height-apply_by e.type e v) refl
  ]

  -- Heights do not fall, in a block above a pool's height.
  reached-apply_one :
      (h : ℕ) (e : Event Address) (v : View Address) (b : Address)
      → h ≤ v.height b
      → h ≤ (apply_one t h e v).height b
  reached-apply_one h e v b le = rw height-apply_one (ground arith)

  stored-apply_one :
      (h : ℕ) (e : Event Address) (v : View Address) (b : Address)
      → 0 < h
      → 0 < v.height b
      → 0 < (apply_one t h e v).height b
  stored-apply_one h e v b pos_h lt = rw height-apply_one (ground arith)

  own-apply_one :
      (h : ℕ) (e : Event Address) (v : View Address) → h ≤ (apply_one t h e v).height e.address
  own-apply_one h e v = rw (height-apply_one, addr_eqb_refl t e.address) (ground arith)

  pub Stored-apply_one :
      (h : ℕ) (e : Event Address) (v : View Address) (es : List (Event Address))
      → 0 < h
      → Stored t v es
      → Stored t (apply_one t h e v) es
  Stored-apply_one h e v [] pos_h st = tt
  Stored-apply_one h e v (f ∷ es) pos_h st = (
    (st.0.0, stored-apply_one h e v f.address pos_h st.0.1),
    Stored-apply_one h e v es pos_h st.1,
  )

  -- Events of pools that have reached the height change nothing.
  apply_all-reached :
      (h : ℕ) (es : List (Event Address)) (v : View Address)
      → All (λ e. h ≤ v.height e.address) es
      → apply_all t h es v ≡ v
  unfolding apply_all apply_one
  apply_all-reached h [] v r = refl
  apply_all-reached h (e ∷ es) v r =
      let reached : leb h (v.height e.address) ≡ true = ground (arith, r.0) in
      rw reached (apply_all-reached h es v r.1)

  reached_all :
      (h : ℕ) (es : List (Event Address)) (v : View Address) (b : Address)
      → h ≤ v.height b
      → h ≤ (apply_all t h es v).height b
  unfolding apply_all
  reached_all h [] v b le = le
  reached_all h (e ∷ es) v b le =
      reached_all h es (apply_one t h e v) b (reached-apply_one h e v b le)

  All-reached :
      (h : ℕ) (es : List (Event Address)) (v : View Address)
      → All (λ e. h ≤ (apply_all t h es v).height e.address) es
  unfolding apply_all
  All-reached h [] v = tt
  All-reached h (e ∷ es) v = (
    reached_all h es (apply_one t h e v) e.address (own-apply_one h e v),
    All-reached h es (apply_one t h e v),
  )

  -- Applying a block twice is applying it once.
  pub apply_all_twice :
      (h : ℕ) (es : List (Event Address)) (v : View Address)
      → apply_all t h es (apply_all t h es v) ≡ apply_all t h es v
  apply_all_twice h es v = apply_all-reached h es (apply_all t h es v) (All-reached h es v)

  same_pool_reached :
      (h : ℕ) (a : Address) (es : List (Event Address)) (v : View Address)
      → h ≤ v.height a
      → All (λ f. f.address ≡ a) es
      → All (λ f. h ≤ v.height f.address) es
  same_pool_reached h a [] v le same = tt
  same_pool_reached h a (f ∷ es) v le same = (rw same.0 le, same_pool_reached h a es v le same.1)

  -- Of the events of one pool only the first counts.
  pub apply_all-same_pool :
      (h : ℕ) (e : Event Address) (es : List (Event Address)) (v : View Address)
      → All (λ f. f.address ≡ e.address) es
      → apply_all t h (e ∷ es) v ≡ apply_one t h e v
  unfolding apply_all
  apply_all-same_pool h e es v same =
      apply_all-reached h es (apply_one t h e v)
        (same_pool_reached h e.address es (apply_one t h e v) (own-apply_one h e v) same)

  pub Stored-apply_all :
      (h : ℕ) (es fs : List (Event Address)) (v : View Address)
      → 0 < h
      → Stored t v fs
      → Stored t (apply_all t h es v) fs
  unfolding apply_all
  Stored-apply_all h [] fs v pos_h st = st
  Stored-apply_all h (e ∷ es) fs v pos_h st =
      Stored-apply_all h es fs (apply_one t h e v) pos_h (Stored-apply_one h e v fs pos_h st)

  apply_by-with_finish :
      (k : EventType) (n : ℕ) (e : Event Address) (v : View Address)
      → apply_by t k e (with_finish t n v) ≡ with_finish t n (apply_by t k e v)
  apply_by-with_finish EventType.mint n e v = refl
  apply_by-with_finish EventType.burn n e v = refl
  apply_by-with_finish EventType.swap n e v = refl
  apply_by-with_finish (EventType.unknown m) n e v = refl

  apply_one-with_finish :
      (h n : ℕ) (e : Event Address) (v : View Address)
      → apply_one t h e (with_finish t n v) ≡ with_finish t n (apply_one t h e v)
  unfolding apply_one
  apply_one-with_finish h n e v = elim (Bool-cases (leb h (v.height e.address))) [
    | inl reached ↦ rw reached refl
    | inr below ↦ rw (below, apply_by-with_finish e.type n e v) refl
  ]

  -- The height of the finished block is not read by events.
  pub apply_all-with_finish :
      (h n : ℕ) (es : List (Event Address)) (v : View Address)
      → apply_all t h es (with_finish t n v) ≡ with_finish t n (apply_all t h es v)
  unfolding apply_all
  apply_all-with_finish h n [] v = refl
  apply_all-with_finish h n (e ∷ es) v =
      ap (apply_all t h es) (apply_one-with_finish h n e v)
      ∙ apply_all-with_finish h n es (apply_one t h e v)

  -- A pool that is stored is so after the events of a block.
  pub stored-apply_all :
      (h : ℕ) (es : List (Event Address)) (v : View Address) (b : Address)
      → 0 < h
      → 0 < v.height b
      → 0 < (apply_all t h es v).height b
  unfolding apply_all
  stored-apply_all h [] v b pos_h lt = lt
  stored-apply_all h (e ∷ es) v b pos_h lt =
      stored-apply_all h es (apply_one t h e v) b pos_h (stored-apply_one h e v b pos_h lt)
