-- ===== src/Tests/Service.antt =====
-- The service as `main` puts it together, at one stored pool, and a lens contract that reverts.
use uniswapv3_tick_state.Bytes.{codes}
use uniswapv3_tick_state.Prelude.{ℕ, ◌<◌, ◌≡◌, refl, true, false, some, [], ◌∷◌, arith}
use uniswapv3_tick_state.Result.{Result, ok, panic}
use uniswapv3_tick_state.Db.Contract.{with_finish}
use uniswapv3_tick_state.DbWrap.Contents.{IsWellFormed}
use uniswapv3_tick_state.DbWrap.Refines.{new_db-DbLaws}
use uniswapv3_tick_state.Samples.Memory.{Entries, memory, memory-EngineLaws, byte_addresses}
use uniswapv3_tick_state.Samples.Stored.{one_pool, one_pool_wf, db, laws, mint_event}
use uniswapv3_tick_state.SafeDb.{Guarded}
use uniswapv3_tick_state.Reactor.Blocks.{block_of}
use uniswapv3_tick_state.Reactor.Spec.{apply_all}
use uniswapv3_tick_state.Parser.Spec.{events_of}
use uniswapv3_tick_state.Pipeline.{put_block_event}
use uniswapv3_tick_state.PoolGetter.{get_pool_state}
use uniswapv3_tick_state.Service.{service_put_block}
use uniswapv3_tick_state.Service.Blocks.{receipts_of, contents_view, service_put_block_lem}
use uniswapv3_tick_state.ContractCaller.{
  contains, has_prefix, is_retryable_err, failed, Node, lens_of,
}
use uniswapv3_tick_state.ContractCaller.Reverted.{put_block_event-reverted}
use uniswapv3_tick_state.Tests.Feed.{ones, ones-AbiLaws, receipts}
use uniswapv3_tick_state.Tests.Pool.{lens, weth_usdc, empty_height}
use uniswapv3_tick_state.Tests.Reactor.{positive, nothing-IsWf}

abbrev pub unlocked_pool : Guarded ℕ Entries
unlocked_pool = record { inner = one_pool; locks = []; fresh = 0 }

pub positive_height : 0 < (contents_view byte_addresses memory-EngineLaws unlocked_pool).height 7
unfolding new_db-DbLaws
positive_height = positive

abbrev after : Result (Unit {0}) × Guarded ℕ Entries
after =
    service_put_block byte_addresses memory lens (λ a. some weth_usdc) ones
      (receipts_of 200 receipts) unlocked_pool

service_put_block_lem_example :
    (after.0 ≡ ok tt)
    × IsWellFormed byte_addresses (memory-EngineLaws.find after.1.inner)
    × (contents_view byte_addresses memory-EngineLaws after.1
        ≡ with_finish byte_addresses 200 (
            apply_all byte_addresses 200
              (events_of ones receipts)
              (contents_view byte_addresses memory-EngineLaws unlocked_pool)))
unfolding memory-EngineLaws
service_put_block_lem_example =
    service_put_block_lem byte_addresses memory lens (λ a. some weth_usdc) memory-EngineLaws ones
      ones-AbiLaws 200 receipts unlocked_pool one_pool_wf (omega arith) (omega arith)
      (positive_height, tt)

-- The first attempt is worth another, the second is final.
abbrev reverts : Node ℕ
reverts = record {
  pack = λ a. ok (a ∷ []);
  attempts = λ b. failed (codes "timeout") ∷ failed (codes "execution reverted: not a pool") ∷ [];
  unpack = λ b. panic;
}

retried : is_retryable_err (codes "timeout") ≡ true
unfolding is_retryable_err contains has_prefix
retried = refl

final : is_retryable_err (codes "execution reverted: not a pool") ≡ false
unfolding is_retryable_err contains has_prefix
final = refl

put_block_event-reverted_example :
    put_block_event db
      (get_pool_state db (lens_of reverts) (λ a. some weth_usdc))
      (block_of 200 (mint_event ∷ []))
      []
    ≡ (panic, [])
put_block_event-reverted_example =
    put_block_event-reverted byte_addresses db laws reverts (λ a. some weth_usdc) 200 mint_event []
      weth_usdc (7 ∷ []) (codes "execution reverted: not a pool") (failed (codes "timeout") ∷ []) []
      [] nothing-IsWf empty_height refl refl refl refl (retried, tt) final
