-- ===== src/Dispatcher/Heights.antt =====
-- The heights are put without a gap and each once, whatever headers arrive.
use mathlib.Core.Path.{subst}
use uniswapv3_tick_state.Prelude.{
  ℕ, zero, suc, ◌+◌, ◌-◌, ◌%◌, ◌<◌, ◌≤◌, ◌≡◌, refl, sym, ap, ◌∙◌, Bool, true, false, inl, inr,
  Option, none, some, List, [], ◌∷◌, ◌++◌, ltb, leb, leb→le, leb→lt, ltb→le, Bool-cases, u64_mod,
  if◌then◌else◌, All, arith,
}
use uniswapv3_tick_state.Dispatcher.{Dispatched, dispatch_range, Started, start}

-- n heights from a height on
abbrev pub heights : ℕ → ℕ → List ℕ
heights from zero = []
heights from (suc n) = from ∷ heights (suc from) n

plus_zero : (n : ℕ) → n + 0 ≡ n
plus_zero n = omega arith

zero_plus : (n : ℕ) → n ≡ 0 + n
zero_plus n = omega arith

suc_plus : (n m : ℕ) → suc (n + m) ≡ suc n + m
suc_plus n m = omega arith

shift : (from n : ℕ) → suc from + n ≡ from + suc n
shift from n = omega arith

pub heights-append : (from n m : ℕ) → heights from n ++ heights (from + n) m ≡ heights from (n + m)
heights-append from zero m =
    ap (λ k. heights k m) (plus_zero from) ∙ ap (heights from) (zero_plus m)
heights-append from (suc n) m =
    ap (λ l. from ∷ l)
      (ap (λ k. heights (suc from) n ++ heights k m) (sym (shift from n))
        ∙ heights-append (suc from) n m)
    ∙ ap (heights from) (suc_plus n m)

-- Where a dispatch up to `to` ends, before a height.
abbrev pub Ended : (ℕ → Bool) → ℕ → Dispatched → ℕ → Type 0
Ended is_stopped to d height =
    if d.stopped
    then (d.next_block ≡ height) × (height ≤ to) × (is_stopped height ≡ true)
    else (d.next_block ≡ 0) × (height ≡ suc to)

-- dispatchRange ends, within as many rounds as there are heights from `from` to `to` and one more,
-- for heights below the largest uint64. It puts the heights from `from` on in order without a gap:
-- up to `to`, or, where it is stopped, up to the height of the first round that finds it stopped,
-- which it returns; no height is put in a round that finds it stopped.
pub dispatch_range_lem :
    (fuel : ℕ) (is_stopped : ℕ → Bool) (from to : ℕ)
    → from ≤ suc to
    → suc to < u64_mod
    → suc to - from < fuel
    → (d : Dispatched) × (n : ℕ) × (dispatch_range fuel is_stopped from to ≡ some d)
      × (d.puts ≡ heights from n)
      × All (λ h. is_stopped h ≡ false) d.puts
      × Ended is_stopped to d (from + n)
unfolding dispatch_range
dispatch_range_lem zero is_stopped from to le lt enough = absurd (omega arith)
dispatch_range_lem (suc fuel) is_stopped from to le lt enough = elim (Bool-cases (leb from to)) [
  | inr over ↦
      let past : to < from = leb→lt from to over in
      (
        record { stopped = false; next_block = 0; puts = [] },
        0,
        rw over refl,
        refl,
        tt,
        (refl, omega arith),
      )
  | inl more ↦
      let below : from ≤ to = leb→le from to more in
      elim (Bool-cases (is_stopped from)) [
        | inl stop ↦ (
          record { stopped = true; next_block = from; puts = [] },
          0,
          rw (more, stop) refl,
          refl,
          tt,
          (omega arith, omega arith, ap is_stopped (omega arith) ∙ stop),
        )
        | inr go ↦
            let (d, n, runs, rest, going, ended) =
              dispatch_range_lem fuel is_stopped (suc from) to (omega arith) lt (omega arith) in
            let wraps : (from + 1) % u64_mod ≡ suc from = omega arith in
            (
              record d { puts = from ∷ d.puts },
              suc n,
              rw (more, go, wraps, runs) refl,
              ap (λ l. from ∷ l) rest,
              (go, going),
              subst (Ended is_stopped to d) (shift from n) ended,
            )
      ]
]

-- Where the rounds of Start end, before a height.
abbrev pub Left : (ℕ → Bool) → Option ℕ → ℕ → Type 0
Left is_stopped none height = is_stopped height ≡ true
Left is_stopped (some k) height = k ≡ height

-- Whatever header heights below the largest uint64 the rounds of Start see, the heights put are
-- those from the first one on, in order, each once and without a gap; the next round begins at the
-- height that follows them, or it is the height at which the dispatcher was stopped. The fuel of
-- each dispatch is at least the number of uint64s.
pub start_lem :
    (fuel : ℕ) (is_stopped : ℕ → Bool) (height : ℕ) (headers : List ℕ)
    → height < u64_mod
    → All (λ h. suc h < u64_mod) headers
    → u64_mod ≤ fuel
    → (s : Started) × (n : ℕ) × (start fuel is_stopped height headers ≡ some s)
      × (s.puts ≡ heights height n)
      × Left is_stopped s.height (height + n)
unfolding start
start_lem fuel is_stopped height [] lt small enough =
    (record { height = some height; puts = [] }, 0, refl, refl, sym (plus_zero height))
start_lem fuel is_stopped height (header ∷ headers) lt small enough =
    elim (Bool-cases (ltb header height)) [
      | inl idle ↦
          let (s, n, runs, puts, left) =
            start_lem fuel is_stopped height headers lt small.1 enough in
          (s, n, rw (idle, runs) refl, puts, left)
      | inr busy ↦
          let le : height ≤ header = ltb→le header height busy in
          let (d, n, runs, first, going, ended) =
            dispatch_range_lem fuel is_stopped height header (omega arith) small.0 (omega arith) in
          elim (Bool-cases d.stopped) [
            | inl stop ↦
                let over : (d.next_block ≡ height + n)
                    × (height + n ≤ header)
                    × (is_stopped (height + n) ≡ true) =
                  subst
                    (λ q.
                      if q
                      then (d.next_block ≡ height + n)
                        × (height + n ≤ header)
                        × (is_stopped (height + n) ≡ true)
                      else (d.next_block ≡ 0) × (height + n ≡ suc header))
                    stop ended in
                (
                  record { height = none; puts = d.puts },
                  n,
                  rw (busy, runs, stop) refl,
                  first,
                  over.2,
                )
            | inr go ↦
                let past : (d.next_block ≡ 0) × (height + n ≡ suc header) =
                  subst
                    (λ q.
                      if q
                      then (d.next_block ≡ height + n)
                        × (height + n ≤ header)
                        × (is_stopped (height + n) ≡ true)
                      else (d.next_block ≡ 0) × (height + n ≡ suc header))
                    go ended in
                let (s, m, more, later, left) =
                  start_lem fuel is_stopped (suc header) headers small.0 small.1 enough in
                let wraps : (header + 1) % u64_mod ≡ suc header = omega (arith, small.0) in
                (
                  record s { puts = d.puts ++ s.puts },
                  n + m,
                  rw (busy, runs, go, wraps, more) refl,
                  ap (λ l. l ++ s.puts) first
                      ∙ ap (λ l. heights height n ++ l) (later ∙ ap (λ k. heights k m) (sym past.1))
                      ∙ heights-append height n m,
                  subst (Left is_stopped s.height) (omega (arith, past.1)) left,
                )
          ]
    ]
