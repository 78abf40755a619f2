-- ===== src/SafeDb.antt =====
-- safe_db.go: a lock for each pool around the methods of a `DB`.
pub mod Simulation
pub mod Refines
pub mod System
pub mod Invariant
pub mod Exclusion
use uniswapv3_tick_state.Prelude.{ℕ, suc, Bool, Option, none, some, List, [], ◌∷◌, if◌then◌else◌}
use uniswapv3_tick_state.Result.{Result, Action}
use uniswapv3_tick_state.Address.{AddressType, addr_eqb}
use uniswapv3_tick_state.Db.{Db}

-- What a method asks of the pool's lock: Lock, or RLock.
pub data Mode : Type 0 where
  shared exclusive : Mode

-- A `SafeDB` as one goroutine finds it: the database, and the map of locks. A *sync.RWMutex is a
-- number, and `fresh` is the next that is unused.
pub record Guarded (Address S : Type 0) : Type 0 where
  pub inner : S
  pub locks : List (Address × ℕ)
  pub fresh : ℕ

module _ (t : AddressType) where
  open t use {Address}

  -- s.locks[addr]
  unfoldable pub find_lock : Address → List (Address × ℕ) → Option ℕ
  find_lock a [] = none
  find_lock a ((b, l) ∷ locks) = if addr_eqb t b a then some l else find_lock a locks

  module _ {S : Type 0} where
    -- Of one goroutine alone; the two sections under s.mu are steps of their own in `System`.
    unfoldable pub get_or_create_lock : Address → Guarded Address S → ℕ × Guarded Address S
    unfolding find_lock
    get_or_create_lock a s = elim (find_lock a s.locks) [
      | some l ↦ (l, s)
      | none ↦ (s.fresh, record s { locks = (a, s.fresh) ∷ s.locks; fresh = suc s.fresh })
    ]

    -- getOrCreateLock, and the method between Lock and Unlock: alone, a goroutine finds the lock
    -- free and leaves it free.
    unfoldable pub locked :
        {A : Type 0} → Mode → Address → Action S A → Action (Guarded Address S) A
    unfolding get_or_create_lock
    locked mode a m s =
        let s1 = (get_or_create_lock a s).1 in
        ((m s1.inner).0, record s1 { inner = (m s1.inner).1 })

    abbrev pub unlocked : {A : Type 0} → Action S A → Action (Guarded Address S) A
    unlocked m s = ((m s.inner).0, record s { inner = (m s.inner).1 })

  abbrev pub new_safe_db : Db Address → Db Address
  new_safe_db db = record {
    State = Guarded Address db.State;
    set_finish_height = λ h. unlocked (db.set_finish_height h);
    get_finish_height = unlocked db.get_finish_height;
    set_tick_state = λ a ts. locked Mode.exclusive a (db.set_tick_state a ts);
    get_tick_state = λ a n. locked Mode.shared a (db.get_tick_state a n);
    get_tick_states = λ a. locked Mode.shared a (db.get_tick_states a);
    set_current_tick = λ a n. locked Mode.exclusive a (db.set_current_tick a n);
    get_current_tick = λ a. locked Mode.shared a (db.get_current_tick a);
    set_tick_spacing = λ a n. locked Mode.exclusive a (db.set_tick_spacing a n);
    get_tick_spacing = λ a. locked Mode.shared a (db.get_tick_spacing a);
    set_height = λ a h. locked Mode.exclusive a (db.set_height a h);
    get_height = λ a. locked Mode.shared a (db.get_height a);
    get_pool_state = λ a. locked Mode.shared a (db.get_pool_state a);
    set_pool_state = λ a p. locked Mode.exclusive a (db.set_pool_state a p);
    delete_pool_state = λ a. locked Mode.exclusive a (db.delete_pool_state a);
  }
