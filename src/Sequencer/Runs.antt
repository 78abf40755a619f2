-- ===== src/Sequencer/Runs.antt =====
-- Whatever the order in which goroutines enter `Commit` and wake up, items come out in sequence, and
-- none is held back.
use mathlib.Core.Path.{subst}
use mathlib.Core.Option.{get_or}
use uniswapv3_tick_state.Prelude.{
  ℕ, ◌≡◌, refl, sym, ap, ◌∙◌, Bool, true, false, none, some, List, [], ◌∷◌, ◌++◌, append-nil,
  append_assoc, ◌==◌, ==→eq, ==_refl, if◌then◌else◌,
}
use uniswapv3_tick_state.Sequencer.{
  Sequence, Sequenceable, next, new_sequencer, commit, System, Reaches, begin, arrive, pass,
}

taken :
    {A : Type 0} (q : Bool) (a b : A) → (if q then some a else none) ≡ some b → (q ≡ true) × (a ≡ b)
taken true a b h = (refl, ap (λ o. get_or o a) h)
taken false a b h = cc

module _ {T : Type 0} (i : Sequenceable T) where
  -- From n to m, each item next to the one before it.
  abbrev pub Runs : ℕ → ℕ → List T → Type 0
  Runs n m [] = n ≡ m
  Runs n m (x ∷ xs) = (i.sequence_of x ≡ next n) × Runs (i.sequence_of x) m xs

  Runs-append :
      (n m : ℕ) (xs : List T) (x : T)
      → Runs n m xs
      → i.sequence_of x ≡ next m
      → Runs n (i.sequence_of x) (xs ++ x ∷ [])
  Runs-append n m [] x h e = (rw h e, refl)
  Runs-append n m (y ∷ ys) x h e = (h.0, Runs-append (i.sequence_of y) m ys x h.1 e)

  pub commit-inv :
      (x : T) (s s1 : Sequence T)
      → commit i x s ≡ some s1
      → (i.sequence_of x ≡ next s.sequence)
        × (s1.sequence ≡ i.sequence_of x)
        × (s1.result_chan ≡ s.result_chan ++ x ∷ [])
  unfolding commit
  commit-inv x s s1 h =
      let (turn, e) = taken (next s.sequence == i.sequence_of x) _ s1 h in
      (
        sym (==→eq (next s.sequence) (i.sequence_of x) turn),
        ap (λ q. q.sequence) (sym e),
        ap (λ q. q.result_chan) (sym e),
      )

  pub commit-next :
      (x : T) (s : Sequence T)
      → i.sequence_of x ≡ next s.sequence
      → commit i x s
        ≡ some (record { sequence = i.sequence_of x; result_chan = s.result_chan ++ x ∷ [] })
  unfolding commit
  commit-next x s h = rw (h, ==_refl (next s.sequence)) refl

  module _ (from_sequence : ℕ) where
    -- Whatever goroutines call Commit, in whatever order, the channel receives the items in
    -- sequence: the first is next to the initial sequence, each other next to the one before it,
    -- and the sequencer stands at the last.
    pub Reaches-Runs :
        (y : System T)
        → Reaches i from_sequence y
        → Runs from_sequence y.sequencer.sequence y.sequencer.result_chan
    unfolding new_sequencer
    Reaches-Runs _ begin = refl
    Reaches-Runs _ (arrive item y r) = Reaches-Runs y r
    Reaches-Runs _ (pass before item after s s1 r e) =
        let (turn, last, got) = commit-inv item s s1 e in
        rw (last, got)
          (Runs-append from_sequence s.sequence s.result_chan item (Reaches-Runs _ r) turn)

    -- Shuffle ws xs: `ws` has the items of `xs`, in some order.
    abbrev pub Shuffle : List T → List T → Type 0
    Shuffle ws [] = ws ≡ []
    Shuffle ws (x ∷ xs) =
        (before : List T) × (after : List T) × (ws ≡ before ++ x ∷ after)
        × Shuffle (before ++ after) xs

    -- No deadlock: where the items of a run from the sequencer's sequence on are all inside Commit, in
    -- whatever order, they can all pass, and the channel then has them in the order of the run.
    pub drain :
        (xs : List T) (m : ℕ) (y : System T)
        → Reaches i from_sequence y
        → Shuffle y.waiting xs
        → Runs y.sequencer.sequence m xs
        → (z : System T) × Reaches i from_sequence z
          × (z.waiting ≡ [])
          × (z.sequencer.sequence ≡ m)
          × (z.sequencer.result_chan ≡ y.sequencer.result_chan ++ xs)
    drain [] m y r shuffled runs = (y, r, shuffled, runs, sym (append-nil y.sequencer.result_chan))
    drain (x ∷ xs) m y r (before, after, e, rest) runs =
        let s = y.sequencer in
        let s1 : Sequence T = record {
          sequence = i.sequence_of x;
          result_chan = s.result_chan ++ x ∷ [];
        } in
        let r1 =
          pass before x after s s1
            (subst (λ w. Reaches i from_sequence (record { sequencer = s; waiting = w })) e r)
            (commit-next x s runs.0) in
        let (z, rz, empty, last, got) =
          drain xs m (record { sequencer = s1; waiting = before ++ after }) r1 rest runs.1 in
        (z, rz, empty, last, got ∙ append_assoc s.result_chan (x ∷ []) xs)
