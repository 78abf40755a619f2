-- ===== src/Crawler/Invariant.antt =====
-- What holds of a crawler in every interleaving of its workers.
use mathlib.Core.Path.{subst}
use uniswapv3_tick_state.Prelude.{
  ℕ, zero, suc, ◌+◌, ◌≤◌, ◌<◌, ◌≡◌, refl, sym, ap, ◌∙◌, ◌&&◌, some, List, [], ◌∷◌, ◌++◌, ltb, leb,
  ◌==◌, if◌then◌else◌, u64_mod, All, arith,
}
use uniswapv3_tick_state.Result.{Result, ok, err, panic}
use uniswapv3_tick_state.Parser.{Receipt, BlockReceipt}
use uniswapv3_tick_state.Sequencer.{Sequence, next, new_sequencer, commit}
use uniswapv3_tick_state.Sequencer.Runs.{commit-inv}
use uniswapv3_tick_state.Dispatcher.{before_height}
use uniswapv3_tick_state.Dispatcher.Heights.{heights}
use uniswapv3_tick_state.Crawler.{
  Crawler, block_sequence, get_block_retry, IsAnswer, Step, submit, fetched, committed, Steps,
  begin, more, new_block_crawler,
}

-- How often a key is in a list.
abbrev pub count : {A : Type 0} → (A → ℕ) → ℕ → List A → ℕ
count key x [] = 0
count key x (y ∷ ys) = let rest = count key x ys in if key y == x then suc rest else rest

count-split :
    {A : Type 0} (key : A → ℕ) (x : ℕ) (before : List A) (y : A) (after : List A)
    → count key x (before ++ y ∷ after)
      ≡ (if key y == x then suc (count key x (before ++ after)) else count key x (before ++ after))
count-split key x [] y after = refl
count-split key x (z ∷ before) y after = let same = count-split key x before y after in ground arith

abbrev pub height_of : {Address : Type 0} → BlockReceipt Address → ℕ
height_of b = b.height

abbrev pub itself : ℕ → ℕ
itself h = h

-- 1 for the numbers from a to below b
abbrev pub within : ℕ → ℕ → ℕ → ℕ
within a b x = if leb a x && ltb x b then 1 else 0

module _ {Address : Type 0} (node : ℕ → List (Receipt Address)) where
  abbrev pub block_at : ℕ → BlockReceipt Address
  block_at h = record { height = h; receipts = node h }

  abbrev pub blocks_at : List ℕ → List (BlockReceipt Address)
  blocks_at [] = []
  blocks_at (h ∷ hs) = block_at h ∷ blocks_at hs

  blocks_at-next :
      (from n : ℕ)
      → blocks_at (heights from n) ++ block_at (from + n) ∷ [] ≡ blocks_at (heights from (suc n))
  blocks_at-next from zero = ap (λ k. block_at k ∷ []) (omega arith)
  blocks_at-next from (suc n) =
      ap (λ bs. block_at from ∷ bs)
        (ap (λ k. blocks_at (heights (suc from) n) ++ block_at k ∷ []) (omega arith)
          ∙ blocks_at-next (suc from) n)

  abbrev pub IsOfNode : BlockReceipt Address → Type 0
  IsOfNode b = b ≡ block_at b.height

  get_block_retry-node :
      (h : ℕ) (attempts : List (Result (List (Receipt Address)))) (b : BlockReceipt Address)
      → All (IsAnswer node h) attempts
      → get_block_retry attempts h ≡ some b
      → b ≡ block_at h
  unfolding get_block_retry
  get_block_retry-node h [] b are got = cc
  get_block_retry-node h (ok receipts ∷ attempts) b are got =
      let same : receipts ≡ node h = are.0 in cc
  get_block_retry-node h (err e ∷ attempts) b are got = get_block_retry-node h attempts b are.1 got
  get_block_retry-node h (panic ∷ attempts) b are got = absurd are.0

  -- The heights from `from` on, `total` of them: the first `done` have left the sequencer, those up to
  -- `taken` are with workers, each with one, and the others are in the queue.
  pub record Inv (from total : ℕ) (c : Crawler Address) : Type 0 where
    pub done : ℕ
    pub taken : ℕ
    pub left : ℕ
    pub done_le : done ≤ taken
    pub total_eq : taken + left ≡ total
    pub queue : c.input_queue ≡ heights (from + taken) left
    pub out : c.sequencer.result_chan ≡ blocks_at (heights from done)
    pub turn : next c.sequencer.sequence ≡ from + done
    pub of_node : All IsOfNode c.waiting
    pub counted :
        (x : ℕ)
        → count itself x c.fetching + count height_of x c.waiting
          ≡ within (from + done) (from + taken) x

  All-split :
      (P : BlockReceipt Address → Type 0) (before : List (BlockReceipt Address))
      (y : BlockReceipt Address) (after : List (BlockReceipt Address))
      → All P (before ++ y ∷ after)
      → P y × All P (before ++ after)
  All-split P [] y after h = h
  All-split P (z ∷ before) y after h =
      let (here, rest) = All-split P before y after h.1 in (here, (h.0, rest))

  submit-Inv :
      (from total : ℕ) (c : Crawler Address) (height : ℕ) (rest : List ℕ) (left : ℕ)
      (inv : Inv from total c)
      → inv.left ≡ left
      → c.input_queue ≡ height ∷ rest
      → Inv from total (record c { input_queue = rest; fetching = height ∷ c.fetching })
  submit-Inv from total c height rest zero inv none_left e =
      let empty : [] ≡ height ∷ rest =
        ap (heights (from + inv.taken)) (sym none_left) ∙ sym inv.queue ∙ e in
      cc
  submit-Inv from total c height rest (suc left) inv some_left e =
      let same : (from + inv.taken) ∷ heights (suc (from + inv.taken)) left ≡ height ∷ rest =
        ap (heights (from + inv.taken)) (sym some_left) ∙ sym inv.queue ∙ e in
      let first : from + inv.taken ≡ height = cc in
      let others : heights (suc (from + inv.taken)) left ≡ rest = cc in
      record {
        done = inv.done;
        taken = suc inv.taken;
        left = left;
        done_le = let le = inv.done_le in omega arith;
        total_eq = let sum = inv.total_eq in omega arith;
        queue = sym others ∙ ap (λ k. heights k left) (omega arith);
        out = inv.out;
        turn = inv.turn;
        of_node = inv.of_node;
        counted = λ x. let old = inv.counted x in let le = inv.done_le in ground arith;
      }

  fetched-Inv :
      (from total : ℕ) (c : Crawler Address) (before : List ℕ) (height : ℕ) (after : List ℕ)
      → Inv from total c
      → c.fetching ≡ before ++ height ∷ after
      → Inv from total
          (record c { fetching = before ++ after; waiting = block_at height ∷ c.waiting })
  fetched-Inv from total c before height after inv e = record {
    done = inv.done;
    taken = inv.taken;
    left = inv.left;
    done_le = inv.done_le;
    total_eq = inv.total_eq;
    queue = inv.queue;
    out = inv.out;
    turn = inv.turn;
    of_node = (refl, inv.of_node);
    counted = λ x.
        let old = inv.counted x in
        let split = ap (count itself x) e ∙ count-split itself x before height after in
        ground arith;
  }

  committed-Inv :
      (from total : ℕ) (c : Crawler Address) (before : List (BlockReceipt Address))
      (b : BlockReceipt Address) (after : List (BlockReceipt Address))
      (s : Sequence (BlockReceipt Address))
      → from + total < u64_mod
      → Inv from total c
      → c.waiting ≡ before ++ b ∷ after
      → commit block_sequence b c.sequencer ≡ some s
      → Inv from total (record c { sequencer = s; waiting = before ++ after })
  committed-Inv from total c before b after s lt inv e passed =
      let (in_turn, stands, out) = commit-inv block_sequence b c.sequencer s passed in
      let at_turn : b.height ≡ from + inv.done = in_turn ∙ inv.turn in
      let (of_node, others) =
        All-split IsOfNode before b after (subst (All IsOfNode) e inv.of_node) in
      let is_block : b ≡ block_at (from + inv.done) = of_node ∙ ap block_at at_turn in
      let split : (x : ℕ) → count height_of x c.waiting ≡ _ =
        λ x. ap (count height_of x) e ∙ count-split height_of x before b after in
      let more_taken : inv.done < inv.taken =
        let full = inv.counted (from + inv.done) in
        let here = split (from + inv.done) in ground arith in
      record {
        done = suc inv.done;
        taken = inv.taken;
        left = inv.left;
        done_le = more_taken;
        total_eq = inv.total_eq;
        queue = inv.queue;
        out =
            out
            ∙ ap (λ bs. bs ++ b ∷ []) inv.out
            ∙ ap (λ x. blocks_at (heights from inv.done) ++ x ∷ []) is_block
            ∙ blocks_at-next from inv.done;
        turn = ap next (stands ∙ at_turn) ∙ (let sum = inv.total_eq in omega arith);
        of_node = others;
        counted = λ x. let old = inv.counted x in let here = split x in ground arith;
      }

  pub Step-Inv :
      (pool_size from total : ℕ) (c d : Crawler Address)
      → from + total < u64_mod
      → Inv from total c
      → Step node pool_size c d
      → Inv from total d
  Step-Inv pool_size from total c _ lt inv (submit height rest e free) =
      submit-Inv from total c height rest inv.left inv refl e
  Step-Inv pool_size from total c _ lt inv (fetched before height after attempts block e are got) =
      rw (get_block_retry-node height attempts block are got)
        (fetched-Inv from total c before height after inv e)
  Step-Inv pool_size from total c _ lt inv (committed before block after s e passed) =
      committed-Inv from total c before block after s lt inv e passed

  pub begin-Inv :
      (from total : ℕ)
      → from + total < u64_mod
      → Inv from total (new_block_crawler (before_height from) (heights from total))
  unfolding before_height new_sequencer
  begin-Inv from total lt = record {
    done = 0;
    taken = 0;
    left = total;
    done_le = omega arith;
    total_eq = omega arith;
    queue = ap (λ k. heights k total) (omega arith);
    out = refl;
    turn = omega arith;
    of_node = tt;
    counted = λ x. ground arith;
  }

  pub Steps-Inv :
      (pool_size from total : ℕ) (c : Crawler Address)
      → from + total < u64_mod
      → Steps node pool_size (new_block_crawler (before_height from) (heights from total)) c
      → Inv from total c
  Steps-Inv pool_size from total c lt begin = begin-Inv from total lt
  Steps-Inv pool_size from total e lt (more {d} steps step) =
      Step-Inv pool_size from total d e lt (Steps-Inv pool_size from total d lt steps) step

  -- A crawler with workers over a queue of consecutive heights that begins as `main` makes it, over a
  -- node that has every block: after whatever steps of its workers, in whatever interleaving and after
  -- whatever failed attempts, the output buffer has received the node's blocks of the first heights,
  -- in order, each once and without a gap.
  pub result_chan-ordered :
      (pool_size from total : ℕ) (c : Crawler Address)
      → from + total < u64_mod
      → Steps node pool_size (new_block_crawler (before_height from) (heights from total)) c
      → (n : ℕ) × (n ≤ total) × (c.sequencer.result_chan ≡ blocks_at (heights from n))
  result_chan-ordered pool_size from total c lt steps =
      let inv = Steps-Inv pool_size from total c lt steps in
      let le = inv.done_le in let sum = inv.total_eq in (inv.done, omega arith, inv.out)
