-- ===== src/Pipeline.antt =====
-- How main.go connects the parser and the reactor: the parser puts the events of a block into the
-- reactor (block_parser.go and event_reactor.go: PutInput).
pub mod Block
use uniswapv3_tick_state.Prelude.{ℕ, List}
use uniswapv3_tick_state.Result.{Result, ok, err, panic, Action, lift, continue, ◌>>=◌}
use uniswapv3_tick_state.Types.{BlockEvent, PoolState}
use uniswapv3_tick_state.Db.{Db}
use uniswapv3_tick_state.Parser.{Abi, BlockReceipt, parse_block}
use uniswapv3_tick_state.Reactor.{react_block_event}

-- An error ends the process.
abbrev pub or_fatal : {A : Type 0} → Result A → Result A
or_fatal (ok a) = ok a
or_fatal (err e) = panic
or_fatal panic = panic

module _ {Address : Type 0} (db : Db Address) (get_pool : Address → Action db.State PoolState) where
  -- `eventReactor.PutInput`
  unfoldable pub put_block_event : BlockEvent Address → Action db.State (Unit {0})
  put_block_event block s = (
    or_fatal (react_block_event db get_pool block s).0,
    (react_block_event db get_pool block s).1,
  )

  -- `blockParser.PutInput`
  unfoldable pub put_block_receipt : Abi → BlockReceipt Address → Action db.State (Unit {0})
  unfolding put_block_event
  put_block_receipt abi block = lift (parse_block abi block) >>= put_block_event
