-- ===== src/Sequencer.antt =====
-- sequencer.go: the goroutines of the crawler hand their blocks on in the order of their heights.
pub mod Runs
use uniswapv3_tick_state.Prelude.{
  ℕ, ◌+◌, ◌%◌, ◌≡◌, Option, none, some, List, [], ◌∷◌, ◌++◌, ◌==◌, u64_mod, if◌then◌else◌,
}
use uniswapv3_tick_state.Result.{Result, ok, panic}

-- The last committed sequence, and what the result channel has received, the first item first.
pub record Sequence (T : Type 0) : Type 0 where
  pub sequence : ℕ
  pub result_chan : List T

-- `Sequenceable`
pub record Sequenceable (T : Type 0) : Type 0 where
  pub sequence_of : T → ℕ

abbrev pub next : ℕ → ℕ
next n = (n + 1) % u64_mod

module _ {T : Type 0} where
  unfoldable pub new_sequencer : ℕ → Sequence T
  new_sequencer from_sequence = record { sequence = from_sequence; result_chan = [] }

  -- A sequencer that is not at 0 panics.
  unfoldable pub init : ℕ → Sequence T → Result (Sequence T)
  init sequence s = if s.sequence == 0 then ok (record s { sequence = sequence }) else panic

  -- One round of `Commit` under the lock: none waits for the next broadcast, in the state as it is.
  unfoldable pub commit : Sequenceable T → T → Sequence T → Option (Sequence T)
  commit i item s =
      if next s.sequence == i.sequence_of item
      then some (record { sequence = i.sequence_of item; result_chan = s.result_chan ++ item ∷ [] })
      else none

-- The sequencer, and the items of the goroutines that are inside `Commit`.
pub record System (T : Type 0) : Type 0 where
  pub sequencer : Sequence T
  pub waiting : List T

abbrev pub enter : {T : Type 0} → T → System T → System T
enter item y = record y { waiting = item ∷ y.waiting }

-- The systems that calls of `Commit` lead to from a new sequencer: a goroutine enters, or one that
-- is inside finds its turn, whichever of those that wait the lock lets go first.
pub data Reaches {T : Type 0} (i : Sequenceable T) (from_sequence : ℕ) : System T → Type 0 where
  begin : Reaches i from_sequence (record { sequencer = new_sequencer from_sequence; waiting = [] })
  arrive :
      (item : T) (y : System T) → Reaches i from_sequence y → Reaches i from_sequence (enter item y)
  pass :
      (before : List T) (item : T) (after : List T) (s s1 : Sequence T)
      → Reaches i from_sequence (record { sequencer = s; waiting = before ++ item ∷ after })
      → commit i item s ≡ some s1
      → Reaches i from_sequence (record { sequencer = s1; waiting = before ++ after })
