-- ===== src/Parser/Topics.antt =====
-- A tick in a topic reaches the reactor as the int24 that the contract logged, and no parsed event is
-- of a type that the reactor does not know.
use mathlib.Core.Option
use uniswapv3_tick_state.Prelude.{
  suc, ◌-◌, ◌^◌, ◌≡◌, inl, inr, Option, none, some, List, [], ◌∷◌, ◌==◌, ℤ, pos, negsuc, Bool-cases,
  All, All-append, arith, IsInt24, to_int32, int32_of_uint, to_uint32,
}
use uniswapv3_tick_state.Bytes.{Bytes}
use uniswapv3_tick_state.Types.{Event, EventType, big_int64, to_int64}
use uniswapv3_tick_state.Parser.{
  Hash, Log, Receipt, Abi, mint_topic0, burn_topic0, swap_topic0, liquidity_event,
}
use uniswapv3_tick_state.Parser.Spec.{
  logged, listed, events_of_logs, events_of, mint_amount, burn_amount, swap_tick, swap_event,
}
use uniswapv3_tick_state.Reactor.Spec.{IsKnownType}

-- The topic of an indexed int24: its two's complement on 256 bits.
abbrev pub topic_of : ℤ → Hash
topic_of (pos n) = n
topic_of (negsuc n) = 2 ^ 256 - suc n

-- The reactor reads the tick back that the contract logged: the conversions to int64 and to int32
-- of the topic of an int24 give the int24, also where it is negative.
pub to_int32-topic_of : (n : ℤ) → IsInt24 n → to_int32 (big_int64 (pos (topic_of n))) ≡ n
unfolding to_int32 to_uint32 int32_of_uint big_int64 to_int64
to_int32-topic_of (pos n) h = ground arith
to_int32-topic_of (negsuc n) h = ground arith

module _ {Address : Type 0} where
  abbrev IsKnown : Event Address → Type 0
  IsKnown e = IsKnownType e.type

  map-IsKnown :
      {B : Type 0} (f : B → Event Address) (o : Option B)
      → ((b : B) → IsKnown (f b))
      → All IsKnown (listed (Option.map f o))
  map-IsKnown f none h = tt
  map-IsKnown f (some b) h = (h b, tt)

  logged-IsKnown :
      (abi : Abi) (a : Address) (ts : List Hash) (b : Bytes)
      → All IsKnown (listed (logged abi a ts b))
  logged-IsKnown abi a [] b = tt
  logged-IsKnown abi a (t ∷ []) b = tt
  logged-IsKnown abi a (t ∷ p ∷ []) b = tt
  logged-IsKnown abi a (t ∷ p ∷ q ∷ []) b = elim (Bool-cases (t == swap_topic0)) [
    | inl w ↦ rw w (map-IsKnown (swap_event a) (swap_tick (abi.unpack_swap b)) (λ x. tt))
    | inr w ↦ rw w tt
  ]
  logged-IsKnown abi a (t ∷ p ∷ q ∷ r ∷ []) b = elim (Bool-cases (t == mint_topic0)) [
    | inl m ↦ rw m (
        map-IsKnown (liquidity_event EventType.mint a q r) (mint_amount (abi.unpack_mint b))
          (λ x. tt))
    | inr m ↦ elim (Bool-cases (t == burn_topic0)) [
      | inl u ↦
          rw (m, u)
            (map-IsKnown (liquidity_event EventType.burn a q r) (burn_amount (abi.unpack_burn b))
              (λ x. tt))
      | inr u ↦ rw (m, u) tt
    ]
  ]
  logged-IsKnown abi a (t ∷ p ∷ q ∷ r ∷ s ∷ ts) b = tt

  events_of_logs-IsKnown :
      (abi : Abi) (logs : List (Log Address)) → All IsKnown (events_of_logs abi logs)
  events_of_logs-IsKnown abi [] = tt
  events_of_logs-IsKnown abi (log ∷ logs) =
      All-append IsKnown _ _ (logged-IsKnown abi log.address log.topics log.log_data)
        (events_of_logs-IsKnown abi logs)

  -- The receipts of a block log no event of an unknown type, on which the reactor would panic.
  pub events_of-IsKnown :
      (abi : Abi) (receipts : List (Receipt Address))
      → All (λ e. IsKnownType e.type) (events_of abi receipts)
  events_of-IsKnown abi [] = tt
  events_of-IsKnown abi (receipt ∷ receipts) = elim (Bool-cases (receipt.status == 1)) [
    | inl good ↦ rw good (
        All-append IsKnown _ _ (events_of_logs-IsKnown abi receipt.logs)
          (events_of-IsKnown abi receipts))
    | inr failed ↦ rw failed (events_of-IsKnown abi receipts)
  ]
