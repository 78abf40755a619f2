-- ===== src/Db/Only.antt =====
-- A view of some of the pools alone: of those that the others are told apart from by a test.
use mathlib.Core.Path.{fun_ext}
use uniswapv3_tick_state.Prelude.{
  ℕ, ◌≡◌, refl, sym, ap, ◌∙◌, Bool, true, false, ◌&&◌, inl, inr, Bool-cases, none, some, List, [],
  ◌∷◌, ℤ, pos, eqb_ℤ, leb, if◌then◌else◌, All, ◌+ℤ◌, neg, to_int32,
}
use uniswapv3_tick_state.Address.{AddressType, addr_eqb, addr_eqb→eq}
use uniswapv3_tick_state.Types.{big_int64, big_uint64, Event, EventType, TickState, PoolState}
use uniswapv3_tick_state.Db.Contract.{
  View, at_tick, with_height, with_current, with_spacing, with_tick, with_ticks, with_pool,
}
use uniswapv3_tick_state.Reactor.Spec.{net, add_net, apply_by, apply_one, apply_all}

inside :
    {A : Type 0} (c p : Bool) (x y d : A)
    → (c ≡ true → p ≡ true)
    → (if p then if c then x else y else d) ≡ (if c then x else if p then y else d)
inside true true x y d h = refl
inside true false x y d h = let q = h refl in cc
inside false p x y d h = refl

outside :
    {A : Type 0} (c p : Bool) (x y d : A)
    → (c ≡ true → p ≡ false)
    → (if p then if c then x else y else d) ≡ (if p then y else d)
outside true true x y d h = let q = h refl in cc
outside true false x y d h = refl
outside false p x y d h = refl

first_true : (a b : Bool) → a && b ≡ true → a ≡ true
first_true true b h = refl
first_true false b h = cc

module _ (t : AddressType) (P : t.Address → Bool) where
  open t use {Address}

  -- Other pools read as pools that were never written.
  abbrev pub only : View Address → View Address
  only v = record {
    finish = v.finish;
    height = λ a. if P a then v.height a else 0;
    current = λ a. if P a then v.current a else pos 0;
    spacing = λ a. if P a then v.spacing a else pos 0;
    tick = λ a n. if P a then v.tick a n else none;
  }

  moved : (a b : Address) (q : Bool) → P a ≡ q → addr_eqb t a b ≡ true → P b ≡ q
  moved a b q h same = ap P (sym (addr_eqb→eq t a b same)) ∙ h

  only-with_height :
      (a : Address) (h : ℕ) (v : View Address)
      → P a ≡ true
      → only (with_height t a h v) ≡ with_height t a h (only v)
  only-with_height a h v is =
      ap (λ f. record (only v) { height = f })
        (fun_ext (λ b. inside (addr_eqb t a b) (P b) h (v.height b) 0 (moved a b true is)))

  only-with_current :
      (a : Address) (n : ℤ) (v : View Address)
      → P a ≡ true
      → only (with_current t a n v) ≡ with_current t a n (only v)
  only-with_current a n v is =
      ap (λ f. record (only v) { current = f })
        (fun_ext (λ b. inside (addr_eqb t a b) (P b) n (v.current b) (pos 0) (moved a b true is)))

  only-with_tick :
      (a : Address) (ts : TickState) (v : View Address)
      → P a ≡ true
      → only (with_tick t a ts v) ≡ with_tick t a ts (only v)
  only-with_tick a ts v is =
      ap (λ f. record (only v) { tick = f })
        (fun_ext (λ b. fun_ext (λ m.
          inside (addr_eqb t a b && eqb_ℤ ts.tick m) (P b) (some ts.liquidity_net) (v.tick b m) none
            (λ c. moved a b true is (first_true (addr_eqb t a b) _ c)))))

  net-only :
      (v : View Address) (a : Address) (n : ℤ) → P a ≡ true → net t (only v) a n ≡ net t v a n
  net-only v a n is = rw is refl

  only-add_net :
      (a : Address) (n z : ℤ) (v : View Address)
      → P a ≡ true
      → only (add_net t a n z v) ≡ add_net t a n z (only v)
  only-add_net a n z v is =
      only-with_tick a (at_tick n (net t v a n +ℤ z)) v is
      ∙ ap (λ w. with_tick t a (at_tick n (w +ℤ z)) (only v)) (sym (net-only v a n is))

  only-apply_by :
      (k : EventType) (e : Event Address) (v : View Address)
      → P e.address ≡ true
      → only (apply_by t k e v) ≡ apply_by t k e (only v)
  only-apply_by EventType.mint e v is =
      let lower = to_int32 (big_int64 e.tick_lower) in
      let upper = to_int32 (big_int64 e.tick_upper) in
      only-add_net e.address upper (neg e.amount) (add_net t e.address lower e.amount v) is
      ∙ ap (add_net t e.address upper (neg e.amount)) (only-add_net e.address lower e.amount v is)
  only-apply_by EventType.burn e v is =
      let lower = to_int32 (big_int64 e.tick_lower) in
      let upper = to_int32 (big_int64 e.tick_upper) in
      only-add_net e.address upper e.amount (add_net t e.address lower (neg e.amount) v) is
      ∙ ap (add_net t e.address upper e.amount) (only-add_net e.address lower (neg e.amount) v is)
  only-apply_by EventType.swap e v is = only-with_current e.address _ v is
  only-apply_by (EventType.unknown n) e v is = refl

  only-apply_one :
      (h : ℕ) (e : Event Address) (v : View Address)
      → P e.address ≡ true
      → only (apply_one t h e v) ≡ apply_one t h e (only v)
  unfolding apply_one
  only-apply_one h e v is = elim (Bool-cases (leb h (v.height e.address))) [
    | inl reached ↦ rw (reached, is, reached) refl
    | inr below ↦
        rw (below, is, below)
          (only-with_height e.address h _ is
            ∙ ap (with_height t e.address h) (only-apply_by e.type e v is))
  ]

  -- Events of these pools change the view of them alone as they do that of all.
  pub only-apply_all :
      (h : ℕ) (es : List (Event Address)) (v : View Address)
      → All (λ e. P e.address ≡ true) es
      → only (apply_all t h es v) ≡ apply_all t h es (only v)
  unfolding apply_all
  only-apply_all h [] v are = refl
  only-apply_all h (e ∷ es) v are =
      only-apply_all h es (apply_one t h e v) are.1
      ∙ ap (apply_all t h es) (only-apply_one h e v are.0)

  only-with_ticks :
      (a : Address) (ts : List TickState) (v : View Address)
      → P a ≡ false
      → only (with_ticks t a ts v) ≡ only v
  only-with_ticks a [] v other = refl
  only-with_ticks a (x ∷ ts) v other =
      only-with_ticks a ts (with_tick t a x v) other
      ∙ ap (λ f. record (only v) { tick = f })
          (fun_ext (λ b. fun_ext (λ m.
            outside (addr_eqb t a b && eqb_ℤ x.tick m) (P b) (some x.liquidity_net) (v.tick b m)
              none (λ c. moved a b false other (first_true (addr_eqb t a b) _ c)))))

  -- What is stored of another pool is not seen.
  pub only-with_pool :
      (a : Address) (p : PoolState) (v : View Address)
      → P a ≡ false
      → only (with_pool t a p v) ≡ only v
  only-with_pool a p v other =
      let high = with_height t a (big_uint64 p.global.height) v in
      let now = with_current t a (to_int32 (big_int64 p.global.tick)) high in
      let spaced = with_spacing t a (to_int32 (big_int64 p.global.tick_spacing)) now in
      only-with_ticks a p.tick_states spaced other
      ∙ ap (λ f. record (only now) { spacing = f })
          (fun_ext (λ b.
            outside (addr_eqb t a b) (P b) (to_int32 (big_int64 p.global.tick_spacing))
              (v.spacing b) (pos 0) (moved a b false other)))
      ∙ ap (λ f. record (only high) { current = f })
          (fun_ext (λ b.
            outside (addr_eqb t a b) (P b) (to_int32 (big_int64 p.global.tick)) (v.current b)
              (pos 0) (moved a b false other)))
      ∙ ap (λ f. record (only v) { height = f })
          (fun_ext (λ b.
            outside (addr_eqb t a b) (P b) (big_uint64 p.global.height) (v.height b) 0
              (moved a b false other)))

module _ (t : AddressType) where
  open t use {Address}

  height-with_ticks :
      (a : Address) (ts : List TickState) (v : View Address)
      → (with_ticks t a ts v).height ≡ v.height
  height-with_ticks a [] v = refl
  height-with_ticks a (x ∷ ts) v = height-with_ticks a ts (with_tick t a x v)

  -- The height of a pool beside the one that is stored.
  pub height-with_pool :
      (a b : Address) (p : PoolState) (v : View Address)
      → addr_eqb t a b ≡ false
      → (with_pool t a p v).height b ≡ v.height b
  height-with_pool a b p v other =
      ap (λ f. f b) (height-with_ticks a p.tick_states _) ∙ rw other refl
