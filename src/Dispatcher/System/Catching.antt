-- ===== src/Dispatcher/System/Catching.antt =====
-- The loop catches up with the latest header.
use uniswapv3_tick_state.Prelude.{ℕ, ◌+◌, ◌<◌, ◌≡◌, false}
use uniswapv3_tick_state.Dispatcher.Heights.{heights}
use uniswapv3_tick_state.Dispatcher.System.{at_height, TaskDispatcher, Moves, Inv}

module _ (from_height : ℕ) where
  -- From `d` the loop comes to read the header's height, at the height that is next.
  record Arrives (d : TaskDispatcher) (height : ℕ) : Type 0 where
    e : TaskDispatcher
    moves : Moves d e
    inv : Inv from_height e
    stands : e.loop ≡ at_height height
    header : e.header_height ≡ d.header_height
    going : e.stopped ≡ false

  -- The heights up to the header's have been put.
  abbrev pub IsCaughtUp : TaskDispatcher → TaskDispatcher → Type 0
  IsCaughtUp d e =
      (n : ℕ) × (e.puts ≡ heights from_height n)
      × (d.header_height < from_height + n)
      × (e.header_height ≡ d.header_height)
