-- ===== src/Reactor.antt =====
-- event_reactor.go: the reactor applies the events of a block to the stored pools.
pub mod Spec
pub mod Steps
pub mod Blocks
pub mod Replay
pub mod Ticks
use uniswapv3_tick_state.Prelude.{
  ℕ, Bool, true, false, Option, none, some, List, [], ◌∷◌, ◌==◌, leb, ℤ, neg, to_int32,
  if◌then◌else◌,
}
use uniswapv3_tick_state.Result.{
  Error, pair_not_found, pair_filtered, not_v3_pool, Result, ok, err, panic, Action, pure, lift,
  continue, ◌>>=◌, ◌>>◌,
}
use uniswapv3_tick_state.Types.{
  Event, EventType, BlockEvent, TickState, PoolState, new_tick_state, add_liquidity, big_int64,
  big_uint64,
}
use uniswapv3_tick_state.Db.{Db}

unfoldable pub is_ignorant_error : Error → Bool
is_ignorant_error pair_not_found = true
is_ignorant_error pair_filtered = true
is_ignorant_error not_v3_pool = true
is_ignorant_error _ = false

-- A call whose error result nobody reads; a panic still unwinds.
abbrev pub drop_error : {A : Type 0} → Result A → Result (Unit {0})
drop_error (ok a) = ok tt
drop_error (err e) = ok tt
drop_error panic = panic

abbrev pub ignore : {S A : Type 0} → Action S A → Action S (Unit {0})
ignore m s = (drop_error (m s).0, (m s).1)

-- `getOrNewTickState`: an error of the database panics.
unfoldable pub or_new : ℤ → Result (Option TickState) → Result TickState
unfolding new_tick_state
or_new tick (ok none) = ok (new_tick_state tick)
or_new tick (ok (some ts)) = ok ts
or_new tick (err e) = panic
or_new tick panic = panic

-- What the body of the loop learns of the pool's height: none skips the event.
unfoldable pub height_from_pool : Result PoolState → Result (Option ℕ)
unfolding is_ignorant_error
height_from_pool (ok p) = ok (some (big_uint64 p.global.height))
height_from_pool (err e) = if is_ignorant_error e then ok none else err e
height_from_pool panic = panic

-- The pool states come from an interface, `PoolStateGetter`, which reads and writes the same
-- database.
module _ {Address : Type 0} (db : Db Address) (get_pool : Address → Action db.State PoolState) where
  unfoldable pub get_or_new_tick_state : Address → ℤ → Action db.State TickState
  unfolding or_new
  get_or_new_tick_state addr tick s =
      (or_new tick (db.get_tick_state addr tick s).0, (db.get_tick_state addr tick s).1)

  unfoldable pub react_tick : Address → ℤ → ℤ → Action db.State (Unit {0})
  unfolding get_or_new_tick_state add_liquidity
  react_tick addr tick amount = do
    tick_state ← get_or_new_tick_state addr tick
    db.set_tick_state addr (add_liquidity tick_state amount)

  unfoldable pub react_by : EventType → Event Address → Action db.State (Unit {0})
  unfolding react_tick
  react_by EventType.mint event = do
    ignore (react_tick event.address (to_int32 (big_int64 event.tick_lower)) event.amount)
    ignore (react_tick event.address (to_int32 (big_int64 event.tick_upper)) (neg event.amount))
    pure tt
  react_by EventType.burn event = do
    ignore (react_tick event.address (to_int32 (big_int64 event.tick_lower)) (neg event.amount))
    ignore (react_tick event.address (to_int32 (big_int64 event.tick_upper)) event.amount)
    pure tt
  react_by EventType.swap event = do
    ignore (db.set_current_tick event.address (to_int32 (big_int64 event.tick)))
    pure tt
  react_by (EventType.unknown n) event = lift panic

  unfoldable pub react_event : Event Address → Action db.State (Unit {0})
  unfolding react_by
  react_event event = react_by event.type event

  unfoldable pub known_height : Address → ℕ → Action db.State (Option ℕ)
  unfolding height_from_pool
  known_height addr height s =
      if height == 0
      then (height_from_pool (get_pool addr s).0, (get_pool addr s).1)
      else (ok (some height), s)

  -- the rest of the body, at a known height
  unfoldable pub react_at : ℕ → Event Address → Option ℕ → Action db.State (Unit {0})
  unfolding react_event
  react_at block_height event none = pure tt
  react_at block_height event (some height) =
      if leb block_height height
      then pure tt
      else do react_event event; ignore (db.set_height event.address block_height)

  -- the body of the loop
  unfoldable pub react_one : ℕ → Event Address → Action db.State (Unit {0})
  unfolding known_height react_at
  react_one block_height event = do
    stored ← db.get_height event.address
    height ← known_height event.address stored
    react_at block_height event height

  unfoldable pub react_events : ℕ → List (Event Address) → Action db.State (Unit {0})
  unfolding react_one
  react_events block_height [] = pure tt
  react_events block_height (event ∷ events) =
      react_one block_height event >> react_events block_height events

  unfoldable pub react_block_event : BlockEvent Address → Action db.State (Unit {0})
  unfolding react_events
  react_block_event block = do
    react_events block.height block.events
    db.set_finish_height block.height
