-- ===== src/Crawler/Progress.antt =====
-- A crawler cannot get stuck: the workers can always bring every block out.
use uniswapv3_tick_state.Prelude.{
  ℕ, zero, suc, ◌+◌, ◌*◌, ◌<◌, ◌≡◌, refl, sym, ap, ◌∙◌, ◌⊎◌, inl, inr, List, [], ◌∷◌, ◌++◌, ltb,
  ◌==◌, ltb→lt, ltb→le, Bool-cases, u64_mod, arith,
}
use uniswapv3_tick_state.Result.{ok}
use uniswapv3_tick_state.Parser.{Receipt}
use uniswapv3_tick_state.Sequencer.Runs.{commit-next}
use uniswapv3_tick_state.Dispatcher.{before_height}
use uniswapv3_tick_state.Dispatcher.Heights.{heights}
use uniswapv3_tick_state.Crawler.{
  length, Crawler, block_sequence, get_block_retry, Step, submit, fetched, committed, Steps, begin,
  more, new_block_crawler,
}
use uniswapv3_tick_state.Crawler.Invariant.{
  count, itself, height_of, block_at, blocks_at, Inv, Step-Inv, Steps-Inv,
}

find :
    {A : Type 0} (key : A → ℕ) (x : ℕ) (xs : List A)
    → 0 < count key x xs
    → (before : List A) × (y : A) × (after : List A) × (xs ≡ before ++ y ∷ after) × (key y ≡ x)
find key x [] some_x = absurd (omega arith)
find key x (y ∷ ys) some_x = elim (Bool-cases (key y == x)) [
  | inl is_x ↦ ([], y, ys, refl, ground arith)
  | inr not_x ↦
      let (before, z, after, e, k) = find key x ys (ground arith) in
      (y ∷ before, z, after, ap (λ l. y ∷ l) e, k)
]

none_left : {A : Type 0} (key : A → ℕ) (xs : List A) → ((x : ℕ) → count key x xs ≡ 0) → xs ≡ []
none_left key [] none_of = refl
none_left key (y ∷ ys) none_of = let none_y = none_of (key y) in absurd (ground arith)

length-split :
    {A : Type 0} (before : List A) (y : A) (after : List A)
    → length (before ++ y ∷ after) ≡ suc (length (before ++ after))
length-split [] y after = refl
length-split (z ∷ before) y after = ap suc (length-split before y after)

module _ {Address : Type 0} (node : ℕ → List (Receipt Address)) (pool_size : ℕ) where
  -- The steps left: three for a height in the queue, two for one that is fetched, one for a block.
  abbrev pub steps_left : Crawler Address → ℕ
  steps_left c = 3 * length c.input_queue + 2 * length c.fetching + length c.waiting

  -- Nothing is left to do.
  abbrev pub IsFinished : ℕ → ℕ → Crawler Address → Type 0
  IsFinished from total c =
      (c.sequencer.result_chan ≡ blocks_at node (heights from total))
      × (c.input_queue ≡ [])
      × (c.fetching ≡ [])
      × (c.waiting ≡ [])

  abbrev Advances : Crawler Address → Type 0
  Advances c = (d : Crawler Address) × Step node pool_size c d × (steps_left d < steps_left c)

  Steps-cons :
      {c d e : Crawler Address}
      → Step node pool_size c d
      → Steps node pool_size d e
      → Steps node pool_size c e
  Steps-cons step begin = more begin step
  Steps-cons step (more steps last) = more (Steps-cons step steps) last

  commit_next :
      (from total : ℕ) (c : Crawler Address) (inv : Inv node from total c)
      → 0 < count height_of (from + inv.done) c.waiting
      → Advances c
  commit_next from total c inv inside =
      let (before, b, after, e, at) = find height_of (from + inv.done) c.waiting inside in
      let shorter = ap length e ∙ length-split before b after in
      (
        _,
        committed before b after _ e (commit-next block_sequence b c.sequencer (at ∙ sym inv.turn)),
        omega arith,
      )

  fetch_next : (c : Crawler Address) (h : ℕ) → 0 < count itself h c.fetching → Advances c
  unfolding get_block_retry
  fetch_next c h inside =
      let (before, k, after, e, at) = find itself h c.fetching inside in
      let shorter = ap length e ∙ length-split before k after in
      (
        _,
        fetched before k after (ok (node k) ∷ []) (block_at node k) e (refl, tt) refl,
        omega arith,
      )

  submit_next :
      (from total : ℕ) (c : Crawler Address) (left : ℕ) (inv : Inv node from total c)
      → 0 < pool_size
      → inv.left ≡ left
      → inv.done ≡ inv.taken
      → c.fetching ≡ []
      → c.waiting ≡ []
      → IsFinished from total c ⊎ Advances c
  submit_next from total c zero inv workers e same no_fetch no_wait =
      let sum = inv.total_eq in
      inl (
        inv.out ∙ ap (λ n. blocks_at node (heights from n)) (omega arith),
        inv.queue ∙ ap (heights (from + inv.taken)) e,
        no_fetch,
        no_wait,
      )
  submit_next from total c (suc left) inv workers e same no_fetch no_wait =
      let queue = inv.queue ∙ ap (heights (from + inv.taken)) e in
      let longer = ap length queue in
      let none_f = ap length no_fetch in
      let none_w = ap length no_wait in
      inr (_, submit (from + inv.taken) _ queue (omega arith), omega arith)

  advance :
      (from total : ℕ) (c : Crawler Address)
      → 0 < pool_size
      → Inv node from total c
      → IsFinished from total c ⊎ Advances c
  advance from total c workers inv = elim (Bool-cases (ltb inv.done inv.taken)) [
    | inl out_there ↦
        let turn = inv.counted (from + inv.done) in
        let lt = ltb→lt inv.done inv.taken out_there in
        elim (Bool-cases (ltb 0 (count height_of (from + inv.done) c.waiting))) [
          | inl inside ↦ inr (commit_next from total c inv (ltb→lt 0 _ inside))
          | inr outside ↦
              let no_block = ltb→le 0 _ outside in
              inr (fetch_next c (from + inv.done) (ground arith))
        ]
    | inr all_out ↦
        let ge = ltb→le inv.done inv.taken all_out in
        let le = inv.done_le in
        submit_next from total c inv.left inv workers refl (omega arith)
          (none_left itself c.fetching (λ x. let n = inv.counted x in ground arith))
          (none_left height_of c.waiting (λ x. let n = inv.counted x in ground arith))
  ]

  pub finish :
      (n from total : ℕ) (c : Crawler Address)
      → 0 < pool_size
      → from + total < u64_mod
      → Inv node from total c
      → steps_left c < n
      → (d : Crawler Address) × Steps node pool_size c d × IsFinished from total d
  finish zero from total c workers lt inv enough = absurd (omega arith)
  finish (suc n) from total c workers lt inv enough = elim (advance from total c workers inv) [
    | inl finished ↦ (c, begin, finished)
    | inr (d, step, fewer) ↦
        let (e, steps, finished) =
          finish n from total d workers lt (Step-Inv node pool_size from total c d lt inv step)
            (omega arith) in
        (e, Steps-cons step steps, finished)
  ]

  -- Whatever steps a crawler with at least one worker has taken over a queue of consecutive heights, it
  -- is not stuck: further steps bring the node's blocks of all the heights into the output buffer, in
  -- order, and leave no height in the queue and no worker with a block, also where workers wait inside
  -- Commit for heights that others fetch.
  pub no_deadlock :
      (from total : ℕ) (c : Crawler Address)
      → 0 < pool_size
      → from + total < u64_mod
      → Steps node pool_size (new_block_crawler (before_height from) (heights from total)) c
      → (d : Crawler Address) × Steps node pool_size c d × IsFinished from total d
  no_deadlock from total c workers lt steps =
      finish (suc (steps_left c)) from total c workers lt
        (Steps-Inv node pool_size from total c lt steps) (omega arith)
