-- ===== src/Crawler.antt =====
-- block_crawler.go: workers fetch the blocks of the dispatched heights at the same time, and commit
-- them to the sequencer.
pub mod Invariant
pub mod Progress
use uniswapv3_tick_state.Prelude.{
  ℕ, suc, ◌+◌, ◌<◌, ◌≡◌, Option, none, some, List, [], ◌∷◌, ◌++◌, All,
}
use uniswapv3_tick_state.Result.{Result, ok, err, panic}
use uniswapv3_tick_state.Parser.{Receipt, BlockReceipt}
use uniswapv3_tick_state.Sequencer.{Sequence, Sequenceable, new_sequencer, commit}

-- len
abbrev pub length {ℓ} : {A : Type ℓ} → List A → ℕ
length [] = 0
length (x ∷ xs) = suc (length xs)

module _ {Address : Type 0} where
  -- (*BlockReceipt).Sequence
  abbrev pub block_sequence : Sequenceable (BlockReceipt Address)
  block_sequence = record { sequence_of = λ b. b.height }

  -- of one answer of the node to BlockReceipts
  abbrev pub get_block : Result (List (Receipt Address)) → ℕ → Result (BlockReceipt Address)
  get_block (ok receipts) height = ok (record { height = height; receipts = receipts })
  get_block (err e) height = err e
  get_block panic height = panic

  -- The first answer that is no error ends the attempts, whose number is not bounded; none is returned
  -- yet after those given.
  unfoldable pub get_block_retry :
      List (Result (List (Receipt Address))) → ℕ → Option (BlockReceipt Address)
  get_block_retry [] height = none
  get_block_retry (a ∷ attempts) height = elim (get_block a height) [
    | ok block ↦ some block
    | err e ↦ get_block_retry attempts height
    | panic ↦ none
  ]

-- A crawler: the heights in its queue, those whose workers wait for the node, and the sequencer with
-- the blocks whose workers are inside Commit. Its result channel is the output buffer, from which
-- the parser takes the blocks, the first item first.
pub record Crawler (Address : Type 0) : Type 0 where
  pub input_queue : List ℕ
  pub fetching : List ℕ
  pub sequencer : Sequence (BlockReceipt Address)
  pub waiting : List (BlockReceipt Address)

module _ {Address : Type 0} where
  -- An answer of a node that has the receipts of every block.
  abbrev pub IsAnswer : (ℕ → List (Receipt Address)) → ℕ → Result (List (Receipt Address)) → Type 0
  IsAnswer node height (ok receipts) = receipts ≡ node height
  IsAnswer node height (err e) = Unit
  IsAnswer node height panic = ⊥

  -- The steps of `Start`: the pool of workers takes a height where one is free, a worker gets its
  -- block after some attempts and goes on into Commit, or a worker inside finds its turn, hands its
  -- block over and is free.
  pub data Step (node : ℕ → List (Receipt Address)) (pool_size : ℕ) (c : Crawler Address)
      : Crawler Address → Type 0 where
    submit :
        (height : ℕ) (rest : List ℕ)
        → c.input_queue ≡ height ∷ rest
        → length c.fetching + length c.waiting < pool_size
        → Step node pool_size c (record c { input_queue = rest; fetching = height ∷ c.fetching })
    fetched :
        (before : List ℕ) (height : ℕ) (after : List ℕ)
        (attempts : List (Result (List (Receipt Address)))) (block : BlockReceipt Address)
        → c.fetching ≡ before ++ height ∷ after
        → All (IsAnswer node height) attempts
        → get_block_retry attempts height ≡ some block
        → Step node pool_size c
            (record c { fetching = before ++ after; waiting = block ∷ c.waiting })
    committed :
        (before : List (BlockReceipt Address)) (block : BlockReceipt Address)
        (after : List (BlockReceipt Address)) (s : Sequence (BlockReceipt Address))
        → c.waiting ≡ before ++ block ∷ after
        → commit block_sequence block c.sequencer ≡ some s
        → Step node pool_size c (record c { sequencer = s; waiting = before ++ after })

  -- The crawler of `main`, over the heights that the dispatcher puts.
  abbrev pub new_block_crawler : ℕ → List ℕ → Crawler Address
  new_block_crawler from_sequence heights = record {
    input_queue = heights;
    fetching = [];
    sequencer = new_sequencer from_sequence;
    waiting = [];
  }

  pub data Steps (node : ℕ → List (Receipt Address)) (pool_size : ℕ) (c : Crawler Address)
      : Crawler Address → Type 0 where
    begin : Steps node pool_size c c
    more :
        {d e : Crawler Address}
        → Steps node pool_size c d
        → Step node pool_size d e
        → Steps node pool_size c e
