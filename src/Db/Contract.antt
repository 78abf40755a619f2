-- ===== src/Db/Contract.antt =====
-- What the methods of `DB` promise: a view of the stored pools, and how each method reads or
-- changes it.
use mathlib.Core.Option
use uniswapv3_tick_state.Prelude.{
  ℕ, ◌<◌, ◌≡◌, Bool, not, ◌&&◌, Option, none, some, List, [], ◌∷◌, ◌==◌, ℤ, pos, ◌<ℤ◌, ltb_ℤ, eqb_ℤ,
  IsInt32, to_int32, u64_mod, if◌then◌else◌, All,
}
use uniswapv3_tick_state.Result.{ok}
use uniswapv3_tick_state.Address.{AddressType, addr_eqb}
use uniswapv3_tick_state.TickKey.{min_tick, max_tick}
use uniswapv3_tick_state.Types.{TickState, PoolState, to_int64, big_int64, big_uint64}
use uniswapv3_tick_state.Db.{Db}

-- The pools as their readers see them. A height, tick or spacing that was never written reads 0.
pub record View (Address : Type 0) : Type 0 where
  pub finish : ℕ
  pub height : Address → ℕ
  pub current : Address → ℤ
  pub spacing : Address → ℤ
  pub tick : Address → ℤ → Option ℤ

-- a tick that `GetTickStates` reads
abbrev pub in_ticks : ℤ → Bool
in_ticks n = not (ltb_ℤ n min_tick) && not (ltb_ℤ max_tick n)

-- Tick states in strictly ascending order, all above `n`.
abbrev pub AscendAbove : ℤ → List TickState → Type 0
AscendAbove n [] = Unit
AscendAbove n (t ∷ ts) = (n <ℤ t.tick) × AscendAbove t.tick ts

abbrev pub Ascend : List TickState → Type 0
Ascend [] = Unit
Ascend (t ∷ ts) = AscendAbove t.tick ts

abbrev pub find_tick : ℤ → List TickState → Option ℤ
find_tick n [] = none
find_tick n (t ∷ ts) = if eqb_ℤ t.tick n then some t.liquidity_net else find_tick n ts

abbrev pub at_tick : ℤ → ℤ → TickState
at_tick n z = record { tick = n; liquidity_net = z }

module _ (t : AddressType) where
  open t use {Address}

  abbrev pub with_finish : ℕ → View Address → View Address
  with_finish h v = record v { finish = h }

  abbrev pub with_height : Address → ℕ → View Address → View Address
  with_height a h v = record v { height = λ b. if addr_eqb t a b then h else v.height b }

  abbrev pub with_current : Address → ℤ → View Address → View Address
  with_current a n v = record v { current = λ b. if addr_eqb t a b then n else v.current b }

  abbrev pub with_spacing : Address → ℤ → View Address → View Address
  with_spacing a n v = record v { spacing = λ b. if addr_eqb t a b then n else v.spacing b }

  abbrev pub with_tick : Address → TickState → View Address → View Address
  with_tick a ts v = record v {
    tick = λ b m. if addr_eqb t a b && eqb_ℤ ts.tick m then some ts.liquidity_net else v.tick b m;
  }

  abbrev pub with_ticks : Address → List TickState → View Address → View Address
  with_ticks a [] v = v
  with_ticks a (ts ∷ rest) v = with_ticks a rest (with_tick a ts v)

  -- A snapshot of a pool replaces its globals and adds its ticks to those that are stored.
  abbrev pub with_pool : Address → PoolState → View Address → View Address
  with_pool a p v = with_ticks a p.tick_states (
      with_spacing a (to_int32 (big_int64 p.global.tick_spacing)) (
        with_current a (to_int32 (big_int64 p.global.tick))
          (with_height a (big_uint64 p.global.height) v)))

  -- A deletion clears the globals and the ticks from `min_tick` up to, and without, `max_tick`.
  abbrev pub without_pool : Address → View Address → View Address
  without_pool a v = record {
    finish = v.finish;
    height = λ b. if addr_eqb t a b then 0 else v.height b;
    current = λ b. if addr_eqb t a b then pos 0 else v.current b;
    spacing = λ b. if addr_eqb t a b then pos 0 else v.spacing b;
    tick = λ b m.
        if addr_eqb t a b && (not (ltb_ℤ m min_tick) && ltb_ℤ m max_tick) then none else v.tick b m;
  }

  -- `ts` lists the stored ticks of a pool, in order and each once.
  pub record ListsTicks (v : View Address) (a : Address) (ts : List TickState) : Type 0 where
    pub ascend : Ascend ts
    pub found : (n : ℤ) → find_tick n ts ≡ (if in_ticks n then v.tick a n else none)

  -- What `GetPoolState` makes of a view; a height of 0 stands for no pool.
  abbrev pub pool_of : View Address → Address → List TickState → Option PoolState
  pool_of v a ts =
      if v.height a == 0
      then none
      else some (record {
        token0 = none;
        token1 = none;
        global = record {
          height = to_int64 (v.height a);
          tick_spacing = v.spacing a;
          tick = v.current a;
        };
        tick_states = ts;
      })

  pub record DbLaws (db : Db Address) : Type 1 where
    pub IsWf : db.State → Type 0
    pub view : db.State → View Address
    pub get_finish_height_lem :
        (s : db.State) → IsWf s → db.get_finish_height s ≡ (ok (view s).finish, s)
    pub get_height_lem :
        (a : Address) (s : db.State) → IsWf s → db.get_height a s ≡ (ok ((view s).height a), s)
    pub get_current_tick_lem :
        (a : Address) (s : db.State)
        → IsWf s
        → db.get_current_tick a s ≡ (ok ((view s).current a), s)
    pub get_tick_spacing_lem :
        (a : Address) (s : db.State)
        → IsWf s
        → db.get_tick_spacing a s ≡ (ok ((view s).spacing a), s)
    pub get_tick_state_lem :
        (a : Address) (n : ℤ) (s : db.State)
        → IsWf s
        → IsInt32 n
        → db.get_tick_state a n s ≡ (ok (Option.map (at_tick n) ((view s).tick a n)), s)
    pub get_tick_states_lem :
        (a : Address) (s : db.State)
        → IsWf s
        → (ts : List TickState) × (db.get_tick_states a s ≡ (ok ts, s)) × ListsTicks (view s) a ts
    pub get_pool_state_lem :
        (a : Address) (s : db.State)
        → IsWf s
        → (ts : List TickState) × (db.get_pool_state a s ≡ (ok (pool_of (view s) a ts), s))
          × ListsTicks (view s) a ts
    pub set_finish_height_lem :
        (h : ℕ) (s : db.State)
        → IsWf s
        → h < u64_mod
        → ((db.set_finish_height h s).0 ≡ ok tt)
          × IsWf (db.set_finish_height h s).1
          × (view (db.set_finish_height h s).1 ≡ with_finish h (view s))
    pub set_height_lem :
        (a : Address) (h : ℕ) (s : db.State)
        → IsWf s
        → h < u64_mod
        → ((db.set_height a h s).0 ≡ ok tt)
          × IsWf (db.set_height a h s).1
          × (view (db.set_height a h s).1 ≡ with_height a h (view s))
    pub set_current_tick_lem :
        (a : Address) (n : ℤ) (s : db.State)
        → IsWf s
        → IsInt32 n
        → ((db.set_current_tick a n s).0 ≡ ok tt)
          × IsWf (db.set_current_tick a n s).1
          × (view (db.set_current_tick a n s).1 ≡ with_current a n (view s))
    pub set_tick_spacing_lem :
        (a : Address) (n : ℤ) (s : db.State)
        → IsWf s
        → IsInt32 n
        → ((db.set_tick_spacing a n s).0 ≡ ok tt)
          × IsWf (db.set_tick_spacing a n s).1
          × (view (db.set_tick_spacing a n s).1 ≡ with_spacing a n (view s))
    pub set_tick_state_lem :
        (a : Address) (ts : TickState) (s : db.State)
        → IsWf s
        → IsInt32 ts.tick
        → ((db.set_tick_state a ts s).0 ≡ ok tt)
          × IsWf (db.set_tick_state a ts s).1
          × (view (db.set_tick_state a ts s).1 ≡ with_tick a ts (view s))
    pub set_pool_state_lem :
        (a : Address) (p : PoolState) (s : db.State)
        → IsWf s
        → All (λ ts. IsInt32 ts.tick) p.tick_states
        → ((db.set_pool_state a p s).0 ≡ ok tt)
          × IsWf (db.set_pool_state a p s).1
          × (view (db.set_pool_state a p s).1 ≡ with_pool a p (view s))
    pub delete_pool_state_lem :
        (a : Address) (s : db.State)
        → IsWf s
        → ((db.delete_pool_state a s).0 ≡ ok tt)
          × IsWf (db.delete_pool_state a s).1
          × (view (db.delete_pool_state a s).1 ≡ without_pool a (view s))
