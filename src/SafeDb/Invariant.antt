-- ===== src/SafeDb/Invariant.antt =====
-- What the locks and the goroutines know of each other, in every reachable state.
use uniswapv3_tick_state.Prelude.{
  ℕ, ◌<◌, ◌≡◌, refl, sym, ap, ◌∙◌, true, false, inl, inr, none, some, List, [], ◌∷◌, ◌==◌, ==→eq,
  Bool-cases, arith,
}
use uniswapv3_tick_state.Address.{AddressType, addr_eqb, addr_eqb_refl, addr_eqb→eq}
use uniswapv3_tick_state.SafeDb.{shared, exclusive, find_lock}
use uniswapv3_tick_state.SafeDb.System.{
  elem, without, update, Memory, Pc, outside, missing, found, inside, Move, look_hit, look_miss,
  check_hit, create, lock, r_lock, write, unlock, r_unlock, System, Step, pick, init, Reach, start,
  later,
}

some-ne-none : {l : ℕ} → some l ≡ none → ⊥
some-ne-none h = cc

elem-without : (i j : ℕ) (xs : List ℕ) → (j == i) ≡ false → elem j (without i xs) ≡ elem j xs
elem-without i j [] h = refl
elem-without i j (x ∷ xs) h = ground (arith, elem-without i j xs h)

module _ (t : AddressType) where
  open t use {Address}

  -- A new lock for `b` is none of the locks that were there.
  find_lock-create :
      (a b : Address) (l k : ℕ) (locks : List (Address × ℕ))
      → find_lock t b locks ≡ none
      → find_lock t a locks ≡ some l
      → find_lock t a ((b, k) ∷ locks) ≡ some l
  unfolding find_lock
  find_lock-create a b l k locks fresh h = elim (Bool-cases (addr_eqb t b a)) [
    | inl same ↦ absurd (
        some-ne-none (sym h ∙ ap (λ x. find_lock t x locks) (sym (addr_eqb→eq t b a same)) ∙ fresh))
    | inr differ ↦ rw differ h
  ]

module _ (t : AddressType) {D : Type 0} where
  open t use {Address}

  -- What goroutine `i` relies on.
  abbrev pub Relies : Memory Address D → ℕ → Pc Address → Type 0
  Relies m i outside = Unit
  Relies m i (missing mode a) = Unit
  Relies m i (found mode a l) = find_lock t a m.locks ≡ some l
  Relies m i (inside exclusive a l) =
      (find_lock t a m.locks ≡ some l) × ((m.mutex l).writer ≡ some i)
  Relies m i (inside shared a l) =
      (find_lock t a m.locks ≡ some l) × (elem i (m.mutex l).readers ≡ true)

  pub record Inv (m : Memory Address D) (pc : ℕ → Pc Address) : Type 0 where
    pub known : (a : Address) (l : ℕ) → find_lock t a m.locks ≡ some l → l < m.fresh
    pub alone : (l i : ℕ) → (m.mutex l).writer ≡ some i → (m.mutex l).readers ≡ []
    pub relies : (i : ℕ) → Relies m i (pc i)

  Inv-init : (pools : Address → D) → Inv (init t pools).mem (init t pools).pc
  unfolding find_lock
  Inv-init pools = record { known = λ a l h. cc; alone = λ l i h. cc; relies = λ i. tt }

  module _ {m : Memory Address D} {pc : ℕ → Pc Address} (inv : Inv m pc) (i : ℕ) where
    open inv use {known, alone, relies}

    Move-known :
        {p p' : Pc Address} {m' : Memory Address D}
        → Move t i m p m' p'
        → (a : Address) (l : ℕ) → find_lock t a m'.locks ≡ some l
        → l < m'.fresh
    unfolding find_lock
    Move-known (create mode b none_yet) a l h = ground (arith, known a l)
    Move-known mv a l h = known a l h

    Move-alone :
        {p p' : Pc Address} {m' : Memory Address D}
        → Move t i m p m' p'
        → (l j : ℕ) → (m'.mutex l).writer ≡ some j
        → (m'.mutex l).readers ≡ []
    Move-alone (r_lock b k h') l j h = ground (arith, alone l j)
    Move-alone mv l j h = ground (arith, alone l j)

    -- The step of another goroutine.
    Move-keeps :
        {p p' : Pc Address} {m' : Memory Address D}
        → Move t i m p m' p'
        → Relies m i p
        → (j : ℕ) (q : Pc Address) → (j == i) ≡ false
        → Relies m j q
        → Relies m' j q
    Move-keeps mv own j outside d h = tt
    Move-keeps mv own j (missing mode a) d h = tt
    Move-keeps (create mode b none_yet) own j (found mode' a l) d h =
        find_lock-create t a b l m.fresh m.locks none_yet h
    Move-keeps mv own j (found mode a l) d h = h
    Move-keeps (create mode b none_yet) own j (inside exclusive a l) d h =
        (find_lock-create t a b l m.fresh m.locks none_yet h.0, ground (arith, known a l h.0))
    Move-keeps (lock b k w r) own j (inside exclusive a l) d h = ground arith
    Move-keeps (r_lock b k w) own j (inside exclusive a l) d h = ground arith
    Move-keeps (unlock b k) own j (inside exclusive a l) d h = ground arith
    Move-keeps (r_unlock b k) own j (inside exclusive a l) d h = ground arith
    Move-keeps mv own j (inside exclusive a l) d h = h
    Move-keeps (create mode b none_yet) own j (inside shared a l) d h =
        (find_lock-create t a b l m.fresh m.locks none_yet h.0, ground (arith, known a l h.0))
    Move-keeps (lock b k w r) own j (inside shared a l) d h = ground arith
    Move-keeps (r_lock b k w) own j (inside shared a l) d h = ground arith
    Move-keeps (unlock b k) own j (inside shared a l) d h = ground arith
    Move-keeps (r_unlock b k) own j (inside shared a l) d h =
        ground (arith, elem-without i j (m.mutex l).readers)
    Move-keeps mv own j (inside shared a l) d h = h

    -- The goroutine's own step.
    Move-own :
        {p p' : Pc Address} {m' : Memory Address D}
        → Move t i m p m' p'
        → Relies m i p
        → Relies m' i p'
    unfolding find_lock
    Move-own (look_hit mode a l h) own = h
    Move-own (look_miss mode a h) own = tt
    Move-own (check_hit mode a l h) own = h
    Move-own (create mode a h) own = rw (addr_eqb_refl t a) refl
    Move-own (lock a l w r) own = (own, ground arith)
    Move-own (r_lock a l w) own = (own, ground arith)
    Move-own (write a l d) own = own
    Move-own (unlock a l) own = tt
    Move-own (r_unlock a l) own = tt

    Move-Inv :
        {p' : Pc Address} {m' : Memory Address D}
        → Move t i m (pc i) m' p'
        → Inv m' (update pc i p')
    Move-Inv {p'} {m'} mv = record {
      known = Move-known mv;
      alone = Move-alone mv;
      relies = λ j. elim (Bool-cases (j == i)) [
        | inl same ↦ rw (same, ==→eq j i same) (Move-own mv (relies i))
        | inr other ↦ rw other (Move-keeps mv (relies i) j (pc j) other (relies j))
      ];
    }

  -- Every step of the goroutines keeps the invariant.
  pub Step-Inv : {s u : System Address D} → Step t s u → Inv s.mem s.pc → Inv u.mem u.pc
  Step-Inv (pick i mv) inv = Move-Inv inv i mv

  pub Reach-Inv : {pools : Address → D} {s : System Address D} → Reach t pools s → Inv s.mem s.pc
  Reach-Inv {pools} start = Inv-init pools
  Reach-Inv (later r st) = Step-Inv st (Reach-Inv r)
