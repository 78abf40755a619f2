-- ===== src/SafeDb/Simulation.antt =====
-- A call over the `SafeDB` and the same call over the database inside.
use mathlib.Core.Path.{subst}
use uniswapv3_tick_state.Prelude.{◌≡◌, refl, sym, ap, inl, inr, Option-cases}
use uniswapv3_tick_state.Result.{Result, ok, err, panic, Action, pure, lift, continue, ◌>>=◌}
use uniswapv3_tick_state.Address.{AddressType}
use uniswapv3_tick_state.SafeDb.{Mode, Guarded, find_lock, get_or_create_lock, locked, unlocked}
use uniswapv3_tick_state.Reactor.{drop_error, ignore}

module _ (t : AddressType) {S : Type 0} where
  open t use {Address}

  -- The same result, and the same state inside.
  pub record Sim {A : Type 0} (m : Action (Guarded Address S) A) (n : Action S A) : Type 0 where
    pub run : (s : Guarded Address S) → ((m s).0 ≡ (n s.inner).0) × ((m s).1.inner ≡ (n s.inner).1)

  pub Sim-continue :
      {A B : Type 0} {f : A → Action (Guarded Address S) B} {g : A → Action S B}
      → ((a : A) → Sim (f a) (g a))
      → (r : Result A) (s : Guarded Address S) (s0 : S) → s.inner ≡ s0
      → ((continue r f s).0 ≡ (continue r g s0).0)
        × ((continue r f s).1.inner ≡ (continue r g s0).1)
  Sim-continue {f} {g} h (ok a) s s0 e =
      subst (λ x. ((f a s).0 ≡ (g a x).0) × ((f a s).1.inner ≡ (g a x).1)) e ((h a).run s)
  Sim-continue h (err x) s s0 e = (refl, e)
  Sim-continue h panic s s0 e = (refl, e)

  pub Sim->>= :
      {A B : Type 0} {m : Action (Guarded Address S) A} {n : Action S A}
      {f : A → Action (Guarded Address S) B} {g : A → Action S B}
      → Sim m n
      → ((a : A) → Sim (f a) (g a))
      → Sim (m >>= f) (n >>= g)
  Sim->>= {m} {n} {f} {g} hm hf = record {
    run = λ s.
        subst
          (λ r.
            ((continue r f (m s).1).0 ≡ ((n >>= g) s.inner).0)
            × ((continue r f (m s).1).1.inner ≡ ((n >>= g) s.inner).1))
          (sym (hm.run s).0) (Sim-continue hf (n s.inner).0 (m s).1 (n s.inner).1 (hm.run s).1);
  }

  pub Sim-pure : {A : Type 0} (a : A) → Sim (pure a) (pure a)
  Sim-pure a = record { run = λ s. (refl, refl) }

  pub Sim-lift : {A : Type 0} (r : Result A) → Sim (lift r) (lift r)
  Sim-lift r = record { run = λ s. (refl, refl) }

  pub Sim-ignore :
      {A : Type 0} {m : Action (Guarded Address S) A} {n : Action S A}
      → Sim m n
      → Sim (ignore m) (ignore n)
  Sim-ignore h = record { run = λ s. (ap drop_error (h.run s).0, (h.run s).1) }

  pub inner-get_or_create_lock :
      (a : Address) (s : Guarded Address S) → (get_or_create_lock t a s).1.inner ≡ s.inner
  unfolding get_or_create_lock
  inner-get_or_create_lock a s = elim (Option-cases (find_lock t a s.locks)) [
    | inl absent ↦ rw (absent, get_or_create_lock) refl
    | inr (l, there) ↦ rw (there, get_or_create_lock) refl
  ]

  pub Sim-locked :
      {A : Type 0} (mode : Mode) (a : Address) (m : Action S A) → Sim (locked t mode a m) m
  unfolding locked
  Sim-locked mode a m = record {
    run = λ s. let e = inner-get_or_create_lock a s in (ap (λ x. (m x).0) e, ap (λ x. (m x).1) e);
  }

  pub Sim-unlocked : {A : Type 0} (m : Action S A) → Sim (unlocked t m) m
  Sim-unlocked m = record { run = λ s. (refl, refl) }
