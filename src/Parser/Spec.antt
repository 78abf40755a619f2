-- ===== src/Parser/Spec.antt =====
-- The events that a block's receipts log, by the shape of each log.
use mathlib.Core.Option
use uniswapv3_tick_state.Prelude.{
  ◌≡◌, Option, none, some, List, [], ◌∷◌, ◌++◌, ◌==◌, ℤ, pos, if◌then◌else◌,
}
use uniswapv3_tick_state.Result.{Result, ok, err, panic}
use uniswapv3_tick_state.Bytes.{Bytes}
use uniswapv3_tick_state.Types.{Event, EventType}
use uniswapv3_tick_state.Parser.{
  Hash, Log, Receipt, AbiValue, big_int, other, Abi, swap_topic0, mint_topic0, burn_topic0,
  liquidity_event,
}

-- Unpack fails, or returns the values that the ABI names.
abbrev pub Answers : (List AbiValue → Type 0) → Result (List AbiValue) → Type 0
Answers P (ok values) = P values
Answers P (err e) = Unit
Answers P panic = ⊥

-- One value for each field of an event that is not indexed: of a mint an address and three
-- integers, of a burn three integers, and of a swap seven.
pub record AbiLaws (abi : Abi) : Type 0 where
  pub mint_values :
      (b : Bytes)
      → Answers
          (λ vs.
            (x : ℤ) × (y : ℤ) × (z : ℤ) × (vs ≡ other ∷ big_int x ∷ big_int y ∷ big_int z ∷ []))
          (abi.unpack_mint b)
  pub burn_values :
      (b : Bytes)
      → Answers
          (λ vs. (x : ℤ) × (y : ℤ) × (z : ℤ) × (vs ≡ big_int x ∷ big_int y ∷ big_int z ∷ []))
          (abi.unpack_burn b)
  pub swap_values :
      (b : Bytes)
      → Answers
          (λ vs.
            (a : ℤ) × (b : ℤ) × (c : ℤ) × (d : ℤ) × (x : ℤ) × (y : ℤ) × (z : ℤ) × (vs
              ≡ big_int a
                ∷ big_int b
                ∷ big_int c
                ∷ big_int d
                ∷ big_int x
                ∷ big_int y
                ∷ big_int z
                ∷ []))
          (abi.unpack_swap b)

abbrev pub mint_amount : Result (List AbiValue) → Option ℤ
mint_amount (ok (other ∷ big_int amount ∷ values)) = some amount
mint_amount _ = none

abbrev pub burn_amount : Result (List AbiValue) → Option ℤ
burn_amount (ok (big_int amount ∷ values)) = some amount
burn_amount _ = none

abbrev pub swap_tick : Result (List AbiValue) → Option ℤ
swap_tick (ok (a ∷ b ∷ c ∷ d ∷ big_int tick ∷ values)) = some tick
swap_tick _ = none

module _ {Address : Type 0} where
  abbrev pub swap_event : Address → ℤ → Event Address
  swap_event address tick = record {
    address = address;
    type = EventType.swap;
    tick_lower = pos 0;
    tick_upper = pos 0;
    amount = pos 0;
    tick = tick;
  }

  abbrev pub listed : Option (Event Address) → List (Event Address)
  listed none = []
  listed (some event) = event ∷ []

  module _ (abi : Abi) where
    -- A mint and a burn log four topics, the bounds last; a swap logs three.
    abbrev pub logged : Address → List Hash → Bytes → Option (Event Address)
    logged a (t ∷ _ ∷ lower ∷ upper ∷ []) b =
        if t == mint_topic0
        then Option.map (liquidity_event EventType.mint a lower upper)
            (mint_amount (abi.unpack_mint b))
        else if t == burn_topic0
        then Option.map (liquidity_event EventType.burn a lower upper)
            (burn_amount (abi.unpack_burn b))
        else none
    logged a (t ∷ _ ∷ _ ∷ []) b =
        if t == swap_topic0 then Option.map (swap_event a) (swap_tick (abi.unpack_swap b)) else none
    logged a _ b = none

    abbrev pub events_of_logs : List (Log Address) → List (Event Address)
    events_of_logs [] = []
    events_of_logs (log ∷ logs) =
        listed (logged log.address log.topics log.log_data) ++ events_of_logs logs

    -- The receipts of failed transactions log nothing.
    abbrev pub events_of : List (Receipt Address) → List (Event Address)
    events_of [] = []
    events_of (receipt ∷ receipts) =
        if receipt.status == 1
        then events_of_logs receipt.logs ++ events_of receipts
        else events_of receipts
