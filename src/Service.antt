-- ===== src/Service.antt =====
-- main.go: how the parts are put together. The wrapper of RocksDB stands behind the locks of the
-- SafeDB; the getter, the reactor and the parser work on it.
pub mod Blocks
pub mod Feed
pub mod Restart
pub mod Lifecycle
use uniswapv3_tick_state.Prelude.{ℕ, Option}
use uniswapv3_tick_state.Result.{Result, Action, continue, lift}
use uniswapv3_tick_state.Address.{AddressType}
use uniswapv3_tick_state.Types.{PoolState}
use uniswapv3_tick_state.Engine.{Engine}
use uniswapv3_tick_state.Db.{Db}
use uniswapv3_tick_state.DbWrap.{new_db}
use uniswapv3_tick_state.SafeDb.{Guarded, new_safe_db}
use uniswapv3_tick_state.PoolGetter.{Pair, Lens, get_pool_state}
use uniswapv3_tick_state.Parser.{Abi, BlockReceipt}
use uniswapv3_tick_state.Pipeline.{or_fatal, put_block_receipt}
use uniswapv3_tick_state.Dispatcher.{get_from_height}

module _ (t : AddressType) (e : Engine) (lens : Lens t.Address)
    (get_pair : t.Address → Option Pair) where
  open t use {Address}

  -- db = NewSafeDB(NewDB(rocksDB))
  abbrev pub service_db : Db Address
  service_db = new_safe_db t (new_db t e)

  abbrev pub service_get_pool : Address → Action (Guarded Address e.State) PoolState
  service_get_pool = get_pool_state service_db lens get_pair

  -- the parser of `main`, with the reactor mounted
  unfoldable pub service_put_block :
      Abi → BlockReceipt Address → Action (Guarded Address e.State) (Unit {0})
  service_put_block abi block = put_block_receipt service_db service_get_pool abi block

  -- the first height to dispatch, of the configured one and of the node's latest block
  unfoldable pub first_height : Result ℕ → ℕ → Action (Guarded Address e.State) ℕ
  first_height block_number from_height s =
      continue (or_fatal (service_db.get_finish_height s).0)
        (λ finished. lift (get_from_height block_number from_height finished))
        (service_db.get_finish_height s).1
