-- ===== src/SafeDb/Exclusion.antt =====
-- What the locks give to the methods of a `SafeDB`.
use mathlib.Core.Path.{subst}
use uniswapv3_tick_state.Prelude.{
  ℕ, ◌≡◌, refl, sym, ap, ◌∙◌, true, inl, inr, Bool-cases, Option, some, arith,
}
use uniswapv3_tick_state.Address.{AddressType, addr_eqb, addr_eqb→eq}
use uniswapv3_tick_state.SafeDb.{Mode, shared, exclusive, find_lock}
use uniswapv3_tick_state.SafeDb.System.{
  elem, Memory, Pc, inside, Move, write, System, Step, pick, Reach, later,
}
use uniswapv3_tick_state.SafeDb.Invariant.{Relies, Inv, Reach-Inv}

some_injective : {a b : ℕ} → some a ≡ some b → a ≡ b
some_injective h = cc

module _ (t : AddressType) {D : Type 0} where
  open t use {Address}

  abbrev pub lock_of : Memory Address D → Address → Option ℕ
  lock_of m a = find_lock t a m.locks

  inside-lock :
      (m : Memory Address D) (i : ℕ) (mode : Mode) (a : Address) (l : ℕ)
      → Relies t m i (inside mode a l)
      → lock_of m a ≡ some l
  inside-lock m i shared a l h = h.0
  inside-lock m i exclusive a l h = h.0

  together :
      {m : Memory Address D} {pc : ℕ → Pc Address} (inv : Inv t m pc) (i j l : ℕ) (mode : Mode)
      (a : Address)
      → Relies t m i (inside exclusive a l)
      → Relies t m j (inside mode a l)
      → i ≡ j
  together inv i j l shared a hi hj = ground (arith, inv.alone l i hi.1)
  together inv i j l exclusive a hi hj = ground arith

  -- Whatever methods goroutines call, in whatever interleaving: where a goroutine is between Lock and
  -- Unlock of a method that writes a pool, no other is inside a method of the same pool, also where
  -- both found no lock in the map and went on to create it.
  pub writer_alone :
      (pools : Address → D) (s : System Address D) (i j l k : ℕ) (mode : Mode) (a b : Address)
      → Reach t pools s
      → s.pc i ≡ inside exclusive a l
      → s.pc j ≡ inside mode b k
      → addr_eqb t a b ≡ true
      → i ≡ j
  writer_alone pools s i j l k mode a b r in_i in_j same =
      let inv = Reach-Inv t r in
      let own : Relies t s.mem i (inside exclusive a l) =
        subst (Relies t s.mem i) in_i (inv.relies i) in
      let at_b : Relies t s.mem j (inside mode b k) =
        subst (Relies t s.mem j) in_j (inv.relies j) in
      let at_a : Relies t s.mem j (inside mode a k) =
        subst (λ x. Relies t s.mem j (inside mode x k)) (sym (addr_eqb→eq t a b same)) at_b in
      let one_lock : k ≡ l = some_injective (sym (inside-lock s.mem j mode a k at_a) ∙ own.0) in
      together inv i j l mode a own (subst (λ x. Relies t s.mem j (inside mode a x)) one_lock at_a)

  -- The steps while a goroutine stays inside a method that reads the pool `a`.
  pub data Stays (i : ℕ) (a : Address) (l : ℕ) (s : System Address D)
      : System Address D → Type 0 where
    here : Stays i a l s s
    next :
        {u v : System Address D}
        → Stays i a l s u
        → u.pc i ≡ inside shared a l
        → Step t u v
        → Stays i a l s v

  Stays-Reach :
      {pools : Address → D} {i l : ℕ} {a : Address} {s u : System Address D}
      → Reach t pools s
      → Stays i a l s u
      → Reach t pools u
  Stays-Reach r here = r
  Stays-Reach r (next st at st1) = later (Stays-Reach r st) st1

  no_reader :
      (m : Memory Address D) (pc : ℕ → Pc Address) (i j l k : ℕ) (a b : Address)
      → Inv t m pc
      → Relies t m i (inside shared a l)
      → Relies t m j (inside exclusive b k)
      → addr_eqb t b a ≡ true
      → ⊥
  no_reader m pc i j l k a b inv reads own same =
      let one_lock : k ≡ l =
        some_injective (sym own.0 ∙ ap (lock_of m) (addr_eqb→eq t b a same) ∙ reads.0) in
      let held : (m.mutex l).writer ≡ some j =
        ap (λ x. (m.mutex x).writer) (sym one_lock) ∙ own.1 in
      cc (sym (ap (elem i) (inv.alone l j held)) ∙ reads.1)

  -- A goroutine that writes a pool is alone, so that it is not the one that reads.
  Move-pools :
      (m : Memory Address D) (pc : ℕ → Pc Address) (i j l : ℕ) (a : Address)
      → Inv t m pc
      → Relies t m i (inside shared a l)
      → {p p' : Pc Address} {m' : Memory Address D} → Relies t m j p
      → Move t j m p m' p'
      → m'.pools a ≡ m.pools a
  Move-pools m pc i j l a inv reads own (write b k d) = elim (Bool-cases (addr_eqb t b a)) [
    | inl same ↦ absurd (no_reader m pc i j l k a b inv reads own same)
    | inr differ ↦ rw differ refl
  ]
  Move-pools m pc i j l a inv reads own mv = refl

  -- From RLock to RUnlock, a method that reads a pool finds its data in one and the same state,
  -- whatever the other goroutines do: its several reads of a pool belong together.
  pub reader_steady :
      (pools : Address → D) (s : System Address D) (i l : ℕ) (a : Address) (u : System Address D)
      → Reach t pools s
      → Stays i a l s u
      → u.mem.pools a ≡ s.mem.pools a
  reader_steady pools s i l a u r here = refl
  reader_steady pools s i l a v r (next {u} st at (pick j mv)) =
      let inv = Reach-Inv t (Stays-Reach r st) in
      Move-pools u.mem u.pc i j l a inv (subst (Relies t u.mem i) at (inv.relies i)) (inv.relies j)
        mv
      ∙ reader_steady pools s i l a u r st
