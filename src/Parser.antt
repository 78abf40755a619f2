-- ===== src/Parser.antt =====
-- block_parser.go, and the topics of abi_instance/uniswap_v3_abi.go: from the receipts of a block to
-- its events. A `common.Hash` is an array of 32 bytes, compared byte by byte and read by `Big()` as
-- an unsigned integer, the highest byte first: the integer stands for it.
pub mod Spec
pub mod Logs
pub mod Topics
use mathlib.Core.Option
use uniswapv3_tick_state.Prelude.{
  ℕ, Bool, Option, none, some, List, [], ◌∷◌, ◌++◌, ◌==◌, length, get_elem?, ℤ, pos, if◌then◌else◌,
}
use uniswapv3_tick_state.Result.{
  Error, unknown_log_topic, parser_not_found, wrong_topic_len, wrong_data_unpack_len, Result, ok,
  err, panic, bind,
}
use uniswapv3_tick_state.Bytes.{Bytes}
use uniswapv3_tick_state.Types.{Event, EventType, BlockEvent}

abbrev pub Hash : Type 0
Hash = ℕ

abbrev pub swap_topic0 : Hash
swap_topic0 = 0x19b47279256b2a23a1665c810c8d55a1758940ee09377d4f8d26497a3577dc83

abbrev pub mint_topic0 : Hash
mint_topic0 = 0x7a53080ba414158be7ec69b987b5fb7d07dee101fe85488f0853ae16239d0bde

abbrev pub burn_topic0 : Hash
burn_topic0 = 0x0c396cd989a39f4459b5fa1aed6a9a8dcdbc45908acfd67e028cd568da98982c

-- types.Log and types.Receipt of go-ethereum, with the fields that are read.
pub record Log (Address : Type 0) : Type 0 where
  pub address : Address
  pub topics : List Hash
  pub log_data : Bytes

pub record Receipt (Address : Type 0) : Type 0 where
  pub status : ℕ
  pub logs : List (Log Address)

pub record BlockReceipt (Address : Type 0) : Type 0 where
  pub height : ℕ
  pub receipts : List (Receipt Address)

-- A value that Unpack returns: a *big.Int, or one of another type.
pub data AbiValue : Type 0 where
  big_int : ℤ → AbiValue
  other : AbiValue

-- Inputs.Unpack of the three events, which go-ethereum does from the ABI.
pub record Abi : Type 0 where
  pub unpack_mint : Bytes → Result (List AbiValue)
  pub unpack_burn : Bytes → Result (List AbiValue)
  pub unpack_swap : Bytes → Result (List AbiValue)

-- Indexing out of range panics.
unfoldable pub index {ℓ} : {A : Type ℓ} → List A → ℕ → Result A
index xs i = elim (get_elem? xs i) [ none ↦ panic | some x ↦ ok x ]

-- The type assertion v.(*big.Int) panics on another type.
unfoldable pub as_big_int : AbiValue → Result ℤ
as_big_int (big_int z) = ok z
as_big_int other = panic

pub record EventInputParser : Type 0 where
  pub topic0 : Hash
  pub topic_len : ℕ
  pub data_unpack_len : ℕ
  pub unpack : Bytes → Result (List AbiValue)

unfoldable pub find_parser : List (Hash × EventInputParser) → Hash → Option EventInputParser
find_parser [] h = none
find_parser ((k, p) ∷ book) h = if k == h then some p else find_parser book h

module _ {Address : Type 0} where
  -- `EventInputParser.Parse`
  unfoldable pub parse : EventInputParser → Log Address → Result (List AbiValue)
  parse p log =
      if length log.topics == p.topic_len
      then bind (p.unpack log.log_data) (λ event_input.
        if length event_input == p.data_unpack_len
        then ok event_input
        else err wrong_data_unpack_len)
      else err wrong_topic_len

  -- A field that the literal leaves out is nil, and no code reads it: it is 0 here.
  abbrev pub liquidity_event : EventType → Address → Hash → Hash → ℤ → Event Address
  liquidity_event type address lower upper amount = record {
    address = address;
    type = type;
    tick_lower = pos lower;
    tick_upper = pos upper;
    amount = amount;
    tick = pos 0;
  }

  -- What the body of the loop appends: nothing on an error.
  unfoldable pub appended : Result (Event Address) → Result (List (Event Address))
  appended (ok event) = ok (event ∷ [])
  appended (err e) = ok []
  appended panic = panic

module _ (abi : Abi) where
  abbrev pub mint_event_input_parser : EventInputParser
  mint_event_input_parser = record {
    topic0 = mint_topic0;
    topic_len = 4;
    data_unpack_len = 4;
    unpack = abi.unpack_mint;
  }

  abbrev pub burn_event_input_parser : EventInputParser
  burn_event_input_parser = record {
    topic0 = burn_topic0;
    topic_len = 4;
    data_unpack_len = 3;
    unpack = abi.unpack_burn;
  }

  abbrev pub swap_event_input_parser : EventInputParser
  swap_event_input_parser = record {
    topic0 = swap_topic0;
    topic_len = 3;
    data_unpack_len = 7;
    unpack = abi.unpack_swap;
  }

  abbrev pub input_parser_book : List (Hash × EventInputParser)
  input_parser_book =
      (mint_topic0, mint_event_input_parser)
      ∷ (burn_topic0, burn_event_input_parser)
      ∷ (swap_topic0, swap_event_input_parser)
      ∷ []

  module _ {Address : Type 0} where
    unfoldable pub parse_input : Log Address → Result (List AbiValue)
    unfolding index find_parser parse
    parse_input log = bind (index log.topics 0) λ topic0.
        elim (find_parser input_parser_book topic0) [
          | none ↦ err parser_not_found
          | some parser ↦ parse parser log
        ]

    unfoldable pub parse_mint : Log Address → Result (Event Address)
    unfolding parse_input as_big_int index
    parse_mint log = bind (parse_input log) λ input. bind (index log.topics 2) λ lower.
        bind (index log.topics 3) λ upper. bind (index input 1) λ value.
          bind (as_big_int value)
            λ amount. ok (liquidity_event EventType.mint log.address lower upper amount)

    unfoldable pub parse_burn : Log Address → Result (Event Address)
    unfolding parse_input as_big_int index
    parse_burn log = bind (parse_input log) λ input. bind (index log.topics 2) λ lower.
        bind (index log.topics 3) λ upper. bind (index input 0) λ value.
          bind (as_big_int value)
            λ amount. ok (liquidity_event EventType.burn log.address lower upper amount)

    unfoldable pub parse_swap : Log Address → Result (Event Address)
    unfolding parse_input as_big_int index
    parse_swap log = bind (parse_input log) λ input. bind (index input 4) λ value.
        bind (as_big_int value) λ tick. ok (record {
          address = log.address;
          type = EventType.swap;
          tick_lower = pos 0;
          tick_upper = pos 0;
          amount = pos 0;
          tick = tick;
        })

    unfoldable pub parse_log : Log Address → Result (Event Address)
    unfolding index parse_mint parse_burn parse_swap
    parse_log log = bind (index log.topics 0) λ topic0.
        if topic0 == mint_topic0
        then parse_mint log
        else if topic0 == burn_topic0
        then parse_burn log
        else if topic0 == swap_topic0
        then parse_swap log
        else err unknown_log_topic

    unfoldable pub parse_logs : List (Log Address) → Result (List (Event Address))
    unfolding parse_log appended
    parse_logs [] = ok []
    parse_logs (log ∷ logs) =
        bind (if length log.topics == 0 then ok [] else appended (parse_log log))
          λ events. bind (parse_logs logs) λ rest. ok (events ++ rest)

    unfoldable pub parse_receipt : Receipt Address → Result (List (Event Address))
    unfolding parse_logs
    parse_receipt receipt = parse_logs receipt.logs

    -- the loop of `ParseBlock`
    unfoldable pub parse_receipts : List (Receipt Address) → Result (List (Event Address))
    unfolding parse_receipt
    parse_receipts [] = ok []
    parse_receipts (receipt ∷ receipts) =
        bind (if receipt.status == 1 then parse_receipt receipt else ok [])
          λ events. bind (parse_receipts receipts) λ rest. ok (events ++ rest)

    unfoldable pub parse_block : BlockReceipt Address → Result (BlockEvent Address)
    unfolding parse_receipts
    parse_block block =
        bind (parse_receipts block.receipts)
          λ events. ok (record { height = block.height; events = events })
