-- ===== src/Tests/Life.antt =====
-- The service from its start at block 200 to Stop, with the one block 200 on the way and a request
-- for another pool.
use mathlib.Core.Path.{subst}
use uniswapv3_tick_state.Parser.Spec.{events_of}
use uniswapv3_tick_state.Reactor.Spec.{Stored}
use uniswapv3_tick_state.Prelude.{
  List, ℕ, none, Bool, ◌+◌, ◌<◌, ◌==◌, sym, ap, ◌∙◌, ◌≡◌, refl, some, [], ◌∷◌, pos, All,
  if◌then◌else◌, arith, zero, suc,
}
use uniswapv3_tick_state.Result.{ok}
use uniswapv3_tick_state.Types.{TickState, big_uint64}
use uniswapv3_tick_state.DbWrap.Contents.{IsWellFormed}
use uniswapv3_tick_state.Samples.Memory.{Entries, memory, memory-EngineLaws, byte_addresses}
use uniswapv3_tick_state.Samples.Stored.{one_pool_wf, other_pool_height}
use uniswapv3_tick_state.SafeDb.{Guarded}
use uniswapv3_tick_state.Dispatcher.{before_height}
use uniswapv3_tick_state.Dispatcher.Heights.{heights}
use uniswapv3_tick_state.Dispatcher.System.{
  begin_range, put_input, end_range, head_event, eth_header, stop, interrupted, returned,
}
use uniswapv3_tick_state.Sequencer.{commit, new_sequencer}
use uniswapv3_tick_state.Crawler.{get_block_retry, submit, fetched, committed}
use uniswapv3_tick_state.Crawler.Invariant.{block_at, blocks_at}
use uniswapv3_tick_state.Service.{service_db, first_height}
use uniswapv3_tick_state.Service.Blocks.{contents_view}
use uniswapv3_tick_state.Service.Feed.{Follows, apply_blocks}
use uniswapv3_tick_state.Service.Lifecycle.{
  Life, closed, start_life, Lives, born, beats, dispatch, crawl, close_output, put_block,
  request_miss, request_store, shutdown,
}
use uniswapv3_tick_state.Db.Contract.{View, pool_of}
use uniswapv3_tick_state.Db.Only.{only}
use uniswapv3_tick_state.Service.Lifecycle.Kept.{is_stored}
use uniswapv3_tick_state.Service.Lifecycle.Requests.{request_read_lem}
use uniswapv3_tick_state.Service.Lifecycle.Holds.{Holds, start-Holds, next_put, Lives-Holds}
use uniswapv3_tick_state.Service.Lifecycle.Resume.{resume_lem}
use uniswapv3_tick_state.Service.Lifecycle.Ending.{can_end}
use uniswapv3_tick_state.Tests.Feed.{ones, ones-AbiLaws, receipts}
use uniswapv3_tick_state.Tests.Pool.{lens, on_chain, weth_usdc}
use uniswapv3_tick_state.Tests.Service.{unlocked_pool, positive_height}
use uniswapv3_tick_state.Tests.Crawl.{node}

abbrev Run : Life ℕ (Guarded ℕ Entries) → Type 0
Run =
    Lives byte_addresses memory lens (λ a. some weth_usdc) ones node 2
      (start_life byte_addresses memory lens (λ a. some weth_usdc) ones node 2 200 200
        unlocked_pool)

-- Block 200 is dispatched and fetched; the next header finds the service stopped.
dispatched : (p : Life ℕ (Guarded ℕ Entries)) × Run p
unfolding big_uint64
dispatched = (
  _,
  beats
      (beats
        (beats
          (beats
            (beats
              (beats (beats born (dispatch _ [] refl (begin_range 200 refl (omega arith)) refl))
                (dispatch _ (200 ∷ []) refl (put_input 200 200 refl (omega arith) refl) refl))
              (dispatch _ [] refl (end_range 201 200 refl (omega arith)) refl))
            (dispatch _ [] refl (head_event (eth_header (pos 201)) (omega arith)) refl))
          (dispatch _ [] refl (begin_range 201 refl (omega arith)) refl))
        (dispatch _ [] refl stop refl))
      (dispatch _ [] refl (interrupted 201 201 refl (omega arith) refl) refl),
)

fetched_block : (p : Life ℕ (Guarded ℕ Entries)) × Run p
unfolding dispatched before_height new_sequencer get_block_retry commit
fetched_block = (
  _,
  beats
      (beats
        (beats (beats dispatched.1 (crawl _ refl (submit 200 [] refl (omega arith)))) (
          crawl _ refl
            (fetched [] 200 [] (ok receipts ∷ []) (block_at node 200) refl (refl, tt) refl)))
        (crawl _ refl (committed [] (block_at node 200) [] _ refl refl)))
      (close_output refl refl refl refl refl),
)

not_stored :
    (v : View ℕ) (a : ℕ) (ts : List TickState)
    → v.height a ≡ 0
    → pool_of byte_addresses v a ts ≡ none
not_stored v a ts h = rw h refl

-- A request for pool 9, which is not stored.
missing_pool :
    ((service_db byte_addresses memory lens (λ a. some weth_usdc)).get_pool_state 9 unlocked_pool).0
    ≡ ok none
unfolding memory-EngineLaws
missing_pool =
    let (ts, answer, same) =
      request_read_lem byte_addresses memory lens (λ a. some weth_usdc) memory-EngineLaws 9
        unlocked_pool one_pool_wf in
    answer
    ∙ ap ok (
        not_stored (contents_view byte_addresses memory-EngineLaws unlocked_pool) 9 ts
          other_pool_height)

-- Its answer is stored before block 200 goes through.
asked : (p : Life ℕ (Guarded ℕ Entries)) × Run p
unfolding fetched_block dispatched before_height new_sequencer get_block_retry commit
asked = (
  _,
  beats (beats fetched_block.1 (request_miss 9 refl missing_pool))
      (request_store [] 9 [] on_chain refl refl),
)

no_events :
    (from n : ℕ)
    → 200 < from
    → All
        (Follows byte_addresses ones node
          (contents_view byte_addresses memory-EngineLaws unlocked_pool))
        (heights from n)
no_events from zero lt = tt
no_events from (suc n) lt =
    let empty : node from ≡ [] = ground arith in
    (
      subst
          (λ rs.
            Stored byte_addresses (contents_view byte_addresses memory-EngineLaws unlocked_pool)
              (events_of ones rs))
          (sym empty) tt,
      no_events (suc from) n (omega arith),
    )

stored_pools :
    (n : ℕ)
    → All
        (Follows byte_addresses ones node
          (contents_view byte_addresses memory-EngineLaws unlocked_pool))
        (heights 200 n)
unfolding memory-EngineLaws
stored_pools zero = tt
stored_pools (suc n) = (((tt, positive_height), tt), no_events 201 n (omega arith))

abbrev Held : Life ℕ (Guarded ℕ Entries) → Type 0
Held =
    Holds byte_addresses memory lens (λ a. some weth_usdc) ones node 2 memory-EngineLaws
      ones-AbiLaws 200 unlocked_pool (omega arith) stored_pools

asked-Holds : Held asked.0
unfolding memory-EngineLaws
asked-Holds =
    Lives-Holds byte_addresses memory lens (λ a. some weth_usdc) ones node 2 memory-EngineLaws
      ones-AbiLaws 200 unlocked_pool (omega arith) stored_pools _ asked.0
      (start-Holds byte_addresses memory lens (λ a. some weth_usdc) ones node 2 memory-EngineLaws
        ones-AbiLaws 200 unlocked_pool (omega arith) stored_pools 200 (omega arith) (omega arith)
        one_pool_wf)
      asked.1

ended : (p : Life ℕ (Guarded ℕ Entries)) × Run p
unfolding asked fetched_block dispatched before_height new_sequencer get_block_retry commit
ended = (
  _,
  beats
      (beats asked.1 (
        put_block (block_at node 200) [] refl refl (
          next_put byte_addresses memory lens (λ a. some weth_usdc) ones node 2 memory-EngineLaws
            ones-AbiLaws 200 unlocked_pool (omega arith) stored_pools asked.0 (block_at node 200) []
            asked-Holds refl)))
      (shutdown refl refl refl),
)

abbrev stored_at_start : ℕ → Bool
stored_at_start = is_stored (contents_view byte_addresses memory-EngineLaws unlocked_pool)

resume_lem_example :
    (n : ℕ) × (ended.0.dispatcher.puts ≡ heights 200 n)
    × (ended.0.dispatcher.loop ≡ returned (200 + n))
    × IsWellFormed byte_addresses (memory-EngineLaws.find ended.0.store.inner)
    × (only byte_addresses stored_at_start
          (contents_view byte_addresses memory-EngineLaws ended.0.store)
        ≡ apply_blocks byte_addresses ones (blocks_at node (heights 200 n)) (
            only byte_addresses stored_at_start
              (contents_view byte_addresses memory-EngineLaws unlocked_pool)))
    × ((first_height byte_addresses memory lens (λ a. some weth_usdc) (ok 999) 0 ended.0.store).0
        ≡ (if n == 0
            then (first_height byte_addresses memory lens
                (λ a. some weth_usdc)
                (ok 999)
                0
                unlocked_pool).0
            else ok (200 + n)))
unfolding ended memory-EngineLaws
resume_lem_example =
    resume_lem byte_addresses memory lens (λ a. some weth_usdc) ones memory-EngineLaws ones-AbiLaws
      node 2 200 200 unlocked_pool ended.0 (ok 999) (omega arith) (omega arith) (omega arith)
      one_pool_wf stored_pools ended.1 refl

can_end_example :
    (q : Life ℕ (Guarded ℕ Entries)) × Lives byte_addresses memory lens
      (λ a. some weth_usdc)
      ones
      node
      2
      dispatched.0
      q
    × (q.phase ≡ closed)
    × (q.dispatcher.puts ≡ dispatched.0.dispatcher.puts)
unfolding dispatched memory-EngineLaws
can_end_example =
    can_end byte_addresses memory lens (λ a. some weth_usdc) ones node 2 200 200 unlocked_pool
      memory-EngineLaws ones-AbiLaws dispatched.0 (omega arith) (omega arith) (omega arith)
      (omega arith) one_pool_wf stored_pools dispatched.1 refl
