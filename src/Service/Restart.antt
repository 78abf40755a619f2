-- ===== src/Service/Restart.antt =====
-- Where the service goes on after a restart.
use uniswapv3_tick_state.Prelude.{
  ℕ, zero, suc, ◌+◌, ◌<◌, ◌≡◌, refl, sym, ap, ◌∙◌, Option, List, u64_mod, All, arith, ◌==◌,
  if◌then◌else◌,
}
use uniswapv3_tick_state.Result.{Result, ok}
use uniswapv3_tick_state.Address.{AddressType}
use uniswapv3_tick_state.Engine.{Engine}
use uniswapv3_tick_state.Engine.Laws.{EngineLaws}
use uniswapv3_tick_state.Db.Contract.{View}
use uniswapv3_tick_state.DbWrap.Contents.{IsWellFormed}
use uniswapv3_tick_state.DbWrap.Reads.{get_finish_height_lem}
use uniswapv3_tick_state.SafeDb.{Guarded}
use uniswapv3_tick_state.PoolGetter.{Pair, Lens}
use uniswapv3_tick_state.Parser.{Abi, Receipt}
use uniswapv3_tick_state.Parser.Spec.{AbiLaws}
use uniswapv3_tick_state.Dispatcher.{get_from_height, before_height}
use uniswapv3_tick_state.Dispatcher.Heights.{heights}
use uniswapv3_tick_state.Crawler.{Crawler, Steps, new_block_crawler}
use uniswapv3_tick_state.Crawler.Invariant.{blocks_at, result_chan-ordered}
use uniswapv3_tick_state.Service.{first_height}
use uniswapv3_tick_state.Service.Blocks.{contents_view}
use uniswapv3_tick_state.Service.Feed.{
  commit_output, apply_blocks, Follows, All-heights, commit_output_lem,
}

module _ (t : AddressType) (abi : Abi) where
  open t use {Address}

  -- The last block is the finished one.
  finish-apply_blocks :
      (node : ℕ → List (Receipt Address)) (from n : ℕ) (v : View Address)
      → (apply_blocks t abi (blocks_at node (heights from (suc n))) v).finish ≡ from + n
  finish-apply_blocks node from zero v = omega arith
  finish-apply_blocks node from (suc n) v = finish-apply_blocks node (suc from) n _ ∙ omega arith

module _ (t : AddressType) (e : Engine) (lens : Lens t.Address) (get_pair : t.Address → Option Pair)
    (abi : Abi) (laws : EngineLaws e) (abi_laws : AbiLaws abi)
    (node : ℕ → List (Receipt t.Address)) where
  open t use {Address}

  pub first_height_lem :
      (block_number : Result ℕ) (from_height : ℕ) (s : Guarded Address e.State)
      → IsWellFormed t (laws.find s.inner)
      → (first_height t e lens get_pair block_number from_height s).0
        ≡ get_from_height block_number from_height (contents_view t laws s).finish
  unfolding first_height
  first_height_lem block_number from_height s w = rw (get_finish_height_lem t e laws s.inner w) refl

  -- The height after the last of some blocks.
  pub next_height :
      (block_number before : Result ℕ) (from n : ℕ) (v v1 : View Address)
      → 0 < from
      → from + n < u64_mod
      → v1 ≡ apply_blocks t abi (blocks_at node (heights from n)) v
      → get_from_height block_number 0 v.finish ≡ before
      → get_from_height block_number 0 v1.finish ≡ (if n == 0 then before else ok (from + n))
  unfolding get_from_height
  next_height block_number before from zero v v1 pos_from lt e1 h = rw e1 h
  next_height block_number before from (suc n) v v1 pos_from lt e1 h =
      let finished : v1.finish ≡ from + n =
        ap (λ x. x.finish) e1 ∙ finish-apply_blocks t abi node from n v in
      ground arith

  -- A crawler that begins as main makes it, over a queue of consecutive heights and a node that has
  -- every block, after whatever steps of its workers; all events of the queue's blocks are of stored
  -- pools, the engine keeps its documented laws and the contents are well formed. Where the n blocks
  -- that its output buffer has received were put into the parser, a restart without a configured
  -- height begins with the height behind the last of them, and, where there was none, as a restart
  -- before would have.
  pub restart_lem :
      (pool_size from total : ℕ) (c : Crawler Address) (s : Guarded Address e.State)
      (block_number : Result ℕ)
      → IsWellFormed t (laws.find s.inner)
      → 0 < from
      → from + total < u64_mod
      → Steps node pool_size (new_block_crawler (before_height from) (heights from total)) c
      → All (Follows t abi node (contents_view t laws s)) (heights from total)
      → (n : ℕ) × (c.sequencer.result_chan ≡ blocks_at node (heights from n))
        × ((first_height t e lens get_pair block_number 0
              (commit_output t e lens get_pair abi c.sequencer.result_chan s).1).0
            ≡ (if n == 0
                then (first_height t e lens get_pair block_number 0 s).0
                else ok (from + n)))
  restart_lem pool_size from total c s block_number w pos_from lt steps follows =
      let (n, le, out) = result_chan-ordered node pool_size from total c lt steps in
      let (r, w1, v1) =
        commit_output_lem t e lens get_pair abi laws abi_laws node from n s w pos_from (omega arith)
          (All-heights (Follows t abi node (contents_view t laws s)) from n total le follows) in
      let s1 = (commit_output t e lens get_pair abi (blocks_at node (heights from n)) s).1 in
      (
        n,
        out,
        rw out (
            first_height_lem block_number 0 s1 w1
            ∙ next_height block_number _ from n (contents_view t laws s) (contents_view t laws s1)
                pos_from (omega arith) v1 (sym (first_height_lem block_number 0 s w))),
      )
