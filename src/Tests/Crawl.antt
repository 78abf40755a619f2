-- ===== src/Tests/Crawl.antt =====
-- Two workers that fetch the blocks 200 and 201, and what becomes of them.
use uniswapv3_tick_state.Prelude.{
  ◌+◌, ◌==◌, ℕ, ◌≤◌, ◌≡◌, refl, some, List, [], ◌∷◌, ltb, if◌then◌else◌, arith,
}
use uniswapv3_tick_state.Result.{Result, ok, err, pair_not_found}
use uniswapv3_tick_state.DbWrap.Contents.{IsWellFormed}
use uniswapv3_tick_state.Samples.Memory.{Entries, memory, memory-EngineLaws, byte_addresses}
use uniswapv3_tick_state.Samples.Stored.{one_pool_wf}
use uniswapv3_tick_state.SafeDb.{Guarded}
use uniswapv3_tick_state.Parser.{Receipt}
use uniswapv3_tick_state.Dispatcher.{before_height}
use uniswapv3_tick_state.Dispatcher.Heights.{heights}
use uniswapv3_tick_state.Sequencer.{commit, new_sequencer}
use uniswapv3_tick_state.Crawler.{
  Crawler, get_block_retry, Steps, begin, more, submit, fetched, committed, new_block_crawler,
}
use uniswapv3_tick_state.Crawler.Invariant.{block_at, blocks_at, result_chan-ordered}
use uniswapv3_tick_state.Crawler.Progress.{IsFinished, no_deadlock}
use uniswapv3_tick_state.Service.{first_height}
use uniswapv3_tick_state.Service.Restart.{restart_lem}
use uniswapv3_tick_state.Service.Blocks.{contents_view}
use uniswapv3_tick_state.Service.Feed.{commit_output, apply_blocks, feed_lem}
use uniswapv3_tick_state.Tests.Feed.{ones, ones-AbiLaws, receipts}
use uniswapv3_tick_state.Tests.Pool.{lens, weth_usdc}
use uniswapv3_tick_state.Tests.Service.{unlocked_pool, positive_height}

abbrev pub node : ℕ → List (Receipt ℕ)
node h = if ltb h 201 then receipts else []

-- Block 201 arrives first, after a failed attempt, and waits for block 200.
crawl : (c : Crawler ℕ) × Steps node 2 (new_block_crawler (before_height 200) (heights 200 2)) c
unfolding before_height new_sequencer get_block_retry commit
crawl = (
  _,
  more
      (more
        (more
          (more (more begin (submit 200 (201 ∷ []) refl (omega arith)))
            (submit 201 [] refl (omega arith)))
          (fetched [] 201 (200 ∷ []) (err pair_not_found ∷ ok [] ∷ []) (block_at node 201) refl
            (tt, (refl, tt)) refl))
        (fetched [] 200 [] (ok receipts ∷ []) (block_at node 200) refl (refl, tt) refl))
      (committed [] (block_at node 200) (block_at node 201 ∷ []) _ refl refl),
)

result_chan-ordered_example :
    (n : ℕ) × (n ≤ 2) × (crawl.0.sequencer.result_chan ≡ blocks_at node (heights 200 n))
result_chan-ordered_example = result_chan-ordered node 2 200 2 crawl.0 (omega arith) crawl.1

no_deadlock_example : (d : Crawler ℕ) × Steps node 2 crawl.0 d × IsFinished node 2 200 2 d
no_deadlock_example = no_deadlock node 2 200 2 crawl.0 (omega arith) (omega arith) crawl.1

abbrev fed : Result (Unit {0}) × Guarded ℕ Entries
fed =
    commit_output byte_addresses memory lens (λ a. some weth_usdc) ones
      crawl.0.sequencer.result_chan unlocked_pool

feed_lem_example :
    (n : ℕ) × (n ≤ 2)
    × (crawl.0.sequencer.result_chan ≡ blocks_at node (heights 200 n))
    × (fed.0 ≡ ok tt)
    × IsWellFormed byte_addresses (memory-EngineLaws.find fed.1.inner)
    × (contents_view byte_addresses memory-EngineLaws fed.1
        ≡ apply_blocks byte_addresses ones
            (blocks_at node (heights 200 n))
            (contents_view byte_addresses memory-EngineLaws unlocked_pool))
unfolding memory-EngineLaws
feed_lem_example =
    feed_lem byte_addresses memory lens (λ a. some weth_usdc) ones memory-EngineLaws ones-AbiLaws
      node 2 200 2 crawl.0 unlocked_pool one_pool_wf (omega arith) (omega arith) crawl.1
      (((tt, positive_height), tt), (tt, tt))

restart_lem_example :
    (n : ℕ) × (crawl.0.sequencer.result_chan ≡ blocks_at node (heights 200 n))
    × ((first_height byte_addresses memory lens (λ a. some weth_usdc) (ok 999) 0 fed.1).0 ≡ (
        if n == 0
        then (first_height byte_addresses memory lens
            (λ a. some weth_usdc)
            (ok 999)
            0
            unlocked_pool).0
        else ok (200 + n)))
unfolding memory-EngineLaws
restart_lem_example =
    restart_lem byte_addresses memory lens (λ a. some weth_usdc) ones memory-EngineLaws ones-AbiLaws
      node 2 200 2 crawl.0 unlocked_pool (ok 999) one_pool_wf (omega arith) (omega arith) crawl.1
      (((tt, positive_height), tt), (tt, tt))
