-- ===== src/SafeDb/System.antt =====
-- Goroutines that call methods of one `SafeDB`, interleaved in any order.
use uniswapv3_tick_state.Prelude.{
  ℕ, suc, ◌≡◌, Bool, false, ◌||◌, Option, none, some, List, [], ◌∷◌, ◌==◌, if◌then◌else◌,
}
use uniswapv3_tick_state.Address.{AddressType, addr_eqb}
use uniswapv3_tick_state.SafeDb.{Mode, shared, exclusive, find_lock}

-- A `sync.RWMutex`: held by one writer, or by readers; goroutines are numbered.
pub record RwMutex : Type 0 where
  pub writer : Option ℕ
  pub readers : List ℕ

abbrev pub free : RwMutex
free = record { writer = none; readers = [] }

abbrev pub elem : ℕ → List ℕ → Bool
elem i [] = false
elem i (x ∷ xs) = (x == i) || elem i xs

abbrev pub without : ℕ → List ℕ → List ℕ
without i [] = []
without i (x ∷ xs) = let rest = without i xs in if x == i then rest else x ∷ rest

abbrev pub update {ℓ} : {A : Type ℓ} → (ℕ → A) → ℕ → A → ℕ → A
update f i x j = if j == i then x else f j

-- The shared memory: the map of locks with the locks themselves, and what is stored of each pool.
pub record Memory (Address D : Type 0) : Type 0 where
  pub locks : List (Address × ℕ)
  pub fresh : ℕ
  pub mutex : ℕ → RwMutex
  pub pools : Address → D

-- Where a goroutine stands in a method: outside; behind the first section of getOrCreateLock, which
-- found no lock; behind getOrCreateLock; between Lock and Unlock, or RLock and RUnlock.
pub data Pc (Address : Type 0) : Type 0 where
  outside : Pc Address
  missing : Mode → Address → Pc Address
  found : Mode → Address → ℕ → Pc Address
  inside : Mode → Address → ℕ → Pc Address

pub record System (Address D : Type 0) : Type 0 where
  pub mem : Memory Address D
  pub pc : ℕ → Pc Address

module _ (t : AddressType) {D : Type 0} where
  open t use {Address}

  abbrev pub stored : Address → D → (Address → D) → Address → D
  stored a d pools b = if addr_eqb t a b then d else pools b

  -- One step of goroutine `i`. Under its lock a method reads the pool's data, which changes nothing,
  -- or writes them, in as many writes as it takes.
  pub data Move (i : ℕ) (m : Memory Address D)
      : Pc Address → Memory Address D → Pc Address → Type 0 where
    look_hit :
        (mode : Mode) (a : Address) (l : ℕ)
        → find_lock t a m.locks ≡ some l
        → Move i m outside m (found mode a l)
    look_miss :
        (mode : Mode) (a : Address)
        → find_lock t a m.locks ≡ none
        → Move i m outside m (missing mode a)
    check_hit :
        (mode : Mode) (a : Address) (l : ℕ)
        → find_lock t a m.locks ≡ some l
        → Move i m (missing mode a) m (found mode a l)
    create :
        (mode : Mode) (a : Address)
        → find_lock t a m.locks ≡ none
        → Move i m
            (missing mode a)
            (record m {
              locks = (a, m.fresh) ∷ m.locks;
              fresh = suc m.fresh;
              mutex = update m.mutex m.fresh free;
            })
            (found mode a m.fresh)
    lock :
        (a : Address) (l : ℕ)
        → (m.mutex l).writer ≡ none
        → (m.mutex l).readers ≡ []
        → Move i m
            (found exclusive a l)
            (record m { mutex = update m.mutex l (record { writer = some i; readers = [] }) })
            (inside exclusive a l)
    r_lock :
        (a : Address) (l : ℕ)
        → (m.mutex l).writer ≡ none
        → Move i m
            (found shared a l)
            (record m {
              mutex =
                  update m.mutex l (record { writer = none; readers = i ∷ (m.mutex l).readers });
            })
            (inside shared a l)
    write :
        (a : Address) (l : ℕ) (d : D)
        → Move i m
            (inside exclusive a l)
            (record m { pools = stored a d m.pools })
            (inside exclusive a l)
    unlock :
        (a : Address) (l : ℕ)
        → Move i m
            (inside exclusive a l)
            (record m { mutex = update m.mutex l (record (m.mutex l) { writer = none }) })
            outside
    r_unlock :
        (a : Address) (l : ℕ)
        → Move i m
            (inside shared a l)
            (record m {
              mutex =
                  update m.mutex l (record (m.mutex l) { readers = without i (m.mutex l).readers });
            })
            outside

  pub data Step (s : System Address D) : System Address D → Type 0 where
    pick :
        (i : ℕ) {m : Memory Address D} {p : Pc Address}
        → Move i s.mem (s.pc i) m p
        → Step s (record { mem = m; pc = update s.pc i p })

  abbrev pub init : (Address → D) → System Address D
  init pools = record {
    mem = record { locks = []; fresh = 0; mutex = λ _. free; pools = pools };
    pc = λ _. outside;
  }

  pub data Reach (pools : Address → D) : System Address D → Type 0 where
    start : Reach pools (init pools)
    later : {s u : System Address D} → Reach pools s → Step s u → Reach pools u
