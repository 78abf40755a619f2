-- ===== src/Tests/Feed.antt =====
-- From headers to events: the dispatcher, the sequencer and the parser at concrete inputs.
use uniswapv3_tick_state.Prelude.{
  ℕ, suc, ◌<◌, ◌+◌, ◌≡◌, refl, Bool, false, All, some, List, [], ◌∷◌, ◌==◌, pos, negsuc, to_int32,
  u64_mod, arith,
}
use uniswapv3_tick_state.Result.{ok}
use uniswapv3_tick_state.Types.{big_int64, big_uint64}
use uniswapv3_tick_state.Parser.{Abi, big_int, other, Receipt, mint_topic0, parse_block}
use uniswapv3_tick_state.Parser.Spec.{AbiLaws, events_of}
use uniswapv3_tick_state.Parser.Logs.{parse_block_lem}
use uniswapv3_tick_state.Parser.Topics.{topic_of, to_int32-topic_of}
use uniswapv3_tick_state.Sequencer.{Sequenceable, new_sequencer, System, Reaches, begin, arrive}
use uniswapv3_tick_state.Sequencer.Runs.{Runs, Reaches-Runs}
use uniswapv3_tick_state.Dispatcher.{Dispatched, dispatch_range}
use uniswapv3_tick_state.Dispatcher.System.{
  TaskDispatcher, started, head_event, subscription_error, eth_header, begin_range, put_input,
  Moves, here, then_move, IsAt,
}
use uniswapv3_tick_state.Dispatcher.System.Orders.{puts-in_order}
use uniswapv3_tick_state.Dispatcher.Heights.{heights, Ended, dispatch_range_lem}

abbrev pub ones : Abi
ones = record {
  unpack_mint = λ b. ok (other ∷ big_int (pos 1) ∷ big_int (pos 1) ∷ big_int (pos 1) ∷ []);
  unpack_burn = λ b. ok (big_int (pos 1) ∷ big_int (pos 1) ∷ big_int (pos 1) ∷ []);
  unpack_swap = λ b. ok (
      big_int (pos 1)
      ∷ big_int (pos 1)
      ∷ big_int (pos 1)
      ∷ big_int (pos 1)
      ∷ big_int (pos 1)
      ∷ big_int (pos 1)
      ∷ big_int (pos 1)
      ∷ []);
}

pub ones-AbiLaws : AbiLaws ones
ones-AbiLaws = record {
  mint_values = λ b. (pos 1, pos 1, pos 1, refl);
  burn_values = λ b. (pos 1, pos 1, pos 1, refl);
  swap_values = λ b. (pos 1, pos 1, pos 1, pos 1, pos 1, pos 1, pos 1, refl);
}

abbrev pub receipts : List (Receipt ℕ)
receipts =
    record {
      status = 1;
      logs =
          record {
            address = 7;
            topics = mint_topic0 ∷ 9 ∷ topic_of (negsuc 59) ∷ topic_of (pos 60) ∷ [];
            log_data = [];
          }
          ∷ [];
    }
    ∷ record { status = 0; logs = [] }
    ∷ []

parse_block_lem_example :
    parse_block ones (record { height = 200; receipts = receipts })
    ≡ ok (record { height = 200; events = events_of ones receipts })
parse_block_lem_example = parse_block_lem ones ones-AbiLaws 200 receipts

to_int32-topic_of_example : to_int32 (big_int64 (pos (topic_of (negsuc 59)))) ≡ negsuc 59
to_int32-topic_of_example = to_int32-topic_of (negsuc 59) (omega arith)

-- heights as items
abbrev itself : Sequenceable ℕ
itself = record { sequence_of = λ n. n }

-- 101 waits for 100, since the sequencer is at 99.
abbrev two_waiting : System ℕ
two_waiting = record { sequencer = new_sequencer 99; waiting = 100 ∷ 101 ∷ [] }

two_waiting-Reaches : Reaches itself 99 two_waiting
two_waiting-Reaches = arrive 100 _ (arrive 101 _ begin)

Reaches-Runs_example :
    Runs itself 99 two_waiting.sequencer.sequence two_waiting.sequencer.result_chan
Reaches-Runs_example = Reaches-Runs itself 99 two_waiting two_waiting-Reaches

-- It is stopped at 102.
abbrev at_102 : ℕ → Bool
at_102 i = i == 102

dispatch_range_lem_example :
    (d : Dispatched) × (n : ℕ) × (dispatch_range 10 at_102 100 105 ≡ some d)
    × (d.puts ≡ heights 100 n)
    × All (λ h. at_102 h ≡ false) d.puts
    × Ended at_102 105 d (100 + n)
dispatch_range_lem_example =
    dispatch_range_lem 10 at_102 100 105 (omega arith) (omega arith) (omega arith)

headers_fit : suc (big_uint64 (pos 101)) < u64_mod
unfolding big_uint64
headers_fit = omega arith

-- The header 101 arrives after 100, and one height has been put.
dispatching : (d : TaskDispatcher) × Moves (started 100 100) d
dispatching = (
  _,
  then_move
      (then_move
        (then_move (then_move here (begin_range 100 refl (omega arith)))
          (head_event (eth_header (pos 101)) headers_fit))
        (put_input 100 100 refl (omega arith) refl))
      (head_event subscription_error tt),
)

puts-in_order_example :
    (n : ℕ) × (dispatching.0.puts ≡ heights 100 n)
    × IsAt (100 + n) dispatching.0.fin_input dispatching.0.loop
puts-in_order_example = puts-in_order 100 100 dispatching.0 (omega arith) dispatching.1
