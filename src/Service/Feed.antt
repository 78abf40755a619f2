-- ===== src/Service/Feed.antt =====
-- From the node to the bytes in RocksDB: the crawler's output goes, block by block, through parser
-- and reactor.
use mathlib.Core.Path.{subst}
use uniswapv3_tick_state.Prelude.{
  ℕ, zero, suc, ◌+◌, ◌≤◌, ◌<◌, ◌≡◌, refl, sym, ap, ◌∙◌, Option, List, [], ◌∷◌, u64_mod, All, arith,
}
use uniswapv3_tick_state.Result.{ok, Action, ◌>>◌, pure}
use uniswapv3_tick_state.Address.{AddressType}
use uniswapv3_tick_state.Engine.{Engine}
use uniswapv3_tick_state.Engine.Laws.{EngineLaws}
use uniswapv3_tick_state.Db.Contract.{View, with_finish}
use uniswapv3_tick_state.DbWrap.Contents.{IsWellFormed}
use uniswapv3_tick_state.SafeDb.{Guarded}
use uniswapv3_tick_state.PoolGetter.{Pair, Lens}
use uniswapv3_tick_state.Parser.{Abi, Receipt, BlockReceipt}
use uniswapv3_tick_state.Parser.Spec.{AbiLaws, events_of}
use uniswapv3_tick_state.Reactor.Spec.{apply_all, Stored}
use uniswapv3_tick_state.Reactor.Replay.{Stored-apply_all}
use uniswapv3_tick_state.Dispatcher.{before_height}
use uniswapv3_tick_state.Dispatcher.Heights.{heights}
use uniswapv3_tick_state.Crawler.{Crawler, Steps, new_block_crawler}
use uniswapv3_tick_state.Crawler.Invariant.{block_at, blocks_at, result_chan-ordered}
use uniswapv3_tick_state.Service.{service_put_block}
use uniswapv3_tick_state.Service.Blocks.{contents_view, service_put_block_lem}

-- What holds for all heights holds for the first ones.
pub All-heights :
    (P : ℕ → Type 0) (from n total : ℕ)
    → n ≤ total
    → All P (heights from total)
    → All P (heights from n)
All-heights P from zero total le h = tt
All-heights P from (suc n) zero le h = absurd (omega arith)
All-heights P from (suc n) (suc total) le h =
    (h.0, All-heights P (suc from) n total (omega arith) h.1)

module _ (t : AddressType) (abi : Abi) where
  open t use {Address}

  -- What the events of blocks do to the stored pools.
  abbrev pub apply_blocks : List (BlockReceipt Address) → View Address → View Address
  apply_blocks [] v = v
  apply_blocks (b ∷ bs) v =
      apply_blocks bs (with_finish t b.height (apply_all t b.height (events_of abi b.receipts) v))

  -- The events of a node's block are of pools that are stored.
  abbrev pub Follows : (ℕ → List (Receipt Address)) → View Address → ℕ → Type 0
  Follows node v h = Stored t v (events_of abi (node h))

module _ (t : AddressType) (e : Engine) (lens : Lens t.Address) (get_pair : t.Address → Option Pair)
    (abi : Abi) where
  open t use {Address}

  -- startCommitOutput: the blocks that the output buffer has received, one after the other.
  unfoldable pub commit_output :
      List (BlockReceipt Address) → Action (Guarded Address e.State) (Unit {0})
  commit_output [] = pure tt
  commit_output (block ∷ blocks) =
      service_put_block t e lens get_pair abi block >> commit_output blocks

  module _ (laws : EngineLaws e) (abi_laws : AbiLaws abi) (node : ℕ → List (Receipt Address)) where
    Stored-positive :
        (v : View Address) (es : List _)
        → Stored t v es
        → All (λ event. 0 < v.height event.address) es
    Stored-positive v [] h = tt
    Stored-positive v (event ∷ es) h = (h.0.1, Stored-positive v es h.1)

    Follows-apply :
        (v : View Address) (h from n : ℕ)
        → 0 < h
        → All (Follows t abi node v) (heights from n)
        → All
            (Follows t abi node (with_finish t h (apply_all t h (events_of abi (node h)) v)))
            (heights from n)
    Follows-apply v h from zero pos_h follows = tt
    Follows-apply v h from (suc n) pos_h follows = (
      Stored-apply_all t h (events_of abi (node h)) (events_of abi (node from)) v pos_h follows.0,
      Follows-apply v h (suc from) n pos_h follows.1,
    )

    pub commit_output_lem :
        (from n : ℕ) (s : Guarded Address e.State)
        → IsWellFormed t (laws.find s.inner)
        → 0 < from
        → from + n < u64_mod
        → All (Follows t abi node (contents_view t laws s)) (heights from n)
        → ((commit_output (blocks_at node (heights from n)) s).0 ≡ ok tt)
          × IsWellFormed t (laws.find (commit_output (blocks_at node (heights from n)) s).1.inner)
          × (contents_view t laws (commit_output (blocks_at node (heights from n)) s).1
              ≡ apply_blocks t abi (blocks_at node (heights from n)) (contents_view t laws s))
    unfolding commit_output
    commit_output_lem from zero s w pos_from lt follows = (refl, w, refl)
    commit_output_lem from (suc n) s w pos_from lt follows =
        let (r, w1, v1) =
          service_put_block_lem t e lens get_pair laws abi abi_laws from (node from) s w pos_from
            (omega arith)
            (Stored-positive (contents_view t laws s) (events_of abi (node from)) follows.0) in
        let s1 = (service_put_block t e lens get_pair abi (block_at node from) s).1 in
        let follows1 =
          subst (λ v. All (Follows t abi node v) (heights (suc from) n)) (sym v1)
            (Follows-apply (contents_view t laws s) from (suc from) n pos_from follows.1) in
        let (r2, w2, v2) =
          commit_output_lem (suc from) n s1 w1 (omega arith) (omega arith) follows1 in
        (
          rw r r2,
          rw r w2,
          rw r (v2 ∙ ap (apply_blocks t abi (blocks_at node (heights (suc from) n))) v1),
        )

    -- From the node to RocksDB: a crawler that begins as main makes it, over a queue of consecutive
    -- heights and a node that has every block, and the blocks that its output buffer has received
    -- after whatever steps of its workers. Where all events of the queue's blocks are of stored
    -- pools, the engine keeps its documented laws and the contents are well formed, the service takes
    -- these blocks without ending the process and the contents stay well formed; the blocks are the
    -- node's of the first n heights, and the pools read from the contents are changed by the events of
    -- just these blocks, in the order of the chain, each block once.
    pub feed_lem :
        (pool_size from total : ℕ) (c : Crawler Address) (s : Guarded Address e.State)
        → IsWellFormed t (laws.find s.inner)
        → 0 < from
        → from + total < u64_mod
        → Steps node pool_size (new_block_crawler (before_height from) (heights from total)) c
        → All (Follows t abi node (contents_view t laws s)) (heights from total)
        → (n : ℕ) × (n ≤ total)
          × (c.sequencer.result_chan ≡ blocks_at node (heights from n))
          × ((commit_output c.sequencer.result_chan s).0 ≡ ok tt)
          × IsWellFormed t (laws.find (commit_output c.sequencer.result_chan s).1.inner)
          × (contents_view t laws (commit_output c.sequencer.result_chan s).1
              ≡ apply_blocks t abi (blocks_at node (heights from n)) (contents_view t laws s))
    feed_lem pool_size from total c s w pos_from lt steps follows =
        let (n, le, out) = result_chan-ordered node pool_size from total c lt steps in
        let (r, w1, v1) =
          commit_output_lem from n s w pos_from (omega arith)
            (All-heights (Follows t abi node (contents_view t laws s)) from n total le follows) in
        (n, le, out, rw out r, rw out w1, rw out v1)
