-- ===== src/Dispatcher.antt =====
-- task_dispatcher.go: which heights are handed to the crawler, and in which order.
pub mod Heights
pub mod System
use uniswapv3_tick_state.Prelude.{
  ℕ, zero, suc, ◌+◌, ◌-◌, ◌%◌, Bool, true, false, Option, none, some, List, [], ◌∷◌, ◌++◌, ◌==◌,
  not, ltb, leb, u64_mod, if◌then◌else◌,
}
use uniswapv3_tick_state.Result.{Result, ok, err, panic}

-- What `dispatchRange` returns, with the heights that it put.
pub record Dispatched : Type 0 where
  pub stopped : Bool
  pub next_block : ℕ
  pub puts : List ℕ

abbrev pub put_before : ℕ → Option Dispatched → Option Dispatched
put_before i none = none
put_before i (some d) = some (record d { puts = i ∷ d.puts })

-- `is_stopped i` is what d.stopped.Get() answers in the round of height `i`, which another goroutine
-- sets. The counter is a uint64 and wraps; none means that the fuel ran out.
unfoldable pub dispatch_range : ℕ → (ℕ → Bool) → ℕ → ℕ → Option Dispatched
dispatch_range zero is_stopped i to = none
dispatch_range (suc fuel) is_stopped i to =
    let rest = dispatch_range fuel is_stopped ((i + 1) % u64_mod) to in
    if leb i to
    then if is_stopped i
      then some (record { stopped = true; next_block = i; puts = [] })
      else put_before i rest
    else some (record { stopped = false; next_block = 0; puts = [] })

-- The loop of `Start`, over the heights that d.headerHeight.Get() answers, one in each round; the
-- rounds in which there is nothing to do only sleep. It returns the height of the next round, none
-- where it was stopped, and all heights put.
pub record Started : Type 0 where
  pub height : Option ℕ
  pub puts : List ℕ

abbrev pub puts_before : List ℕ → Option Started → Option Started
puts_before xs none = none
puts_before xs (some s) = some (record s { puts = xs ++ s.puts })

unfoldable pub start : ℕ → (ℕ → Bool) → ℕ → List ℕ → Option Started
unfolding dispatch_range
start fuel is_stopped height [] = some (record { height = some height; puts = [] })
start fuel is_stopped height (header_height ∷ headers) =
    let idle = start fuel is_stopped height headers in
    let on = start fuel is_stopped ((header_height + 1) % u64_mod) headers in
    if ltb header_height height
    then idle
    else elim (dispatch_range fuel is_stopped height header_height) [
      | none ↦ none
      | some d ↦
          if d.stopped
          then some (record { height = none; puts = d.puts })
          else puts_before d.puts on
    ]

-- The node's BlockNumber is an argument; the process ends where it fails.
unfoldable pub get_from_height : Result ℕ → ℕ → ℕ → Result ℕ
get_from_height block_number from_height finished_height =
    if not (from_height == 0)
    then ok from_height
    else if not (finished_height == 0)
    then ok ((finished_height + 1) % u64_mod)
    else elim block_number [ ok height ↦ ok height | err e ↦ panic | panic ↦ panic ]

-- main: the sequencer begins below the first height.
unfoldable pub before_height : ℕ → ℕ
before_height from_height = (from_height + u64_mod - 1) % u64_mod
