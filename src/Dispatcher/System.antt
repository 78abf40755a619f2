-- ===== src/Dispatcher/System.antt =====
-- The dispatcher's goroutines: one keeps the height of the latest header, the loop of `Start`
-- dispatches up to it, and `Stop` is called from outside.
pub mod Orders
pub mod Catching
use uniswapv3_tick_state.Prelude.{
  ℕ, zero, suc, ◌+◌, ◌%◌, ◌≤◌, ◌<◌, ◌≡◌, refl, sym, ap, ◌∙◌, Bool, true, false, List, [], ◌∷◌, ◌++◌,
  ℤ, u64_mod, arith,
}
use uniswapv3_tick_state.Types.{big_uint64}
use uniswapv3_tick_state.Dispatcher.Heights.{heights, heights-append}

-- Where the loop stands: before it reads the header's height, in dispatchRange at a height up to
-- another, or behind its return with the next block.
pub data Loop : Type 0 where
  at_height : ℕ → Loop
  in_range : ℕ → ℕ → Loop
  returned : ℕ → Loop

-- `puts` are the heights that the receiver was given, and `fin_input` is whether it was closed.
pub record TaskDispatcher : Type 0 where
  pub header_height : ℕ
  pub stopped : Bool
  pub loop : Loop
  pub puts : List ℕ
  pub fin_input : Bool

-- The state behind startSubEthHeader, which has set the height of the node's latest block.
abbrev pub started : ℕ → ℕ → TaskDispatcher
started block_number from_height = record {
  header_height = block_number;
  stopped = false;
  loop = at_height from_height;
  puts = [];
  fin_input = false;
}

-- What the goroutine of the headers receives: an error of the subscription, which it renews in as
-- many attempts as it takes, or a header with its number.
pub data HeadEvent : Type 0 where
  subscription_error : HeadEvent
  eth_header : ℤ → HeadEvent

abbrev pub on_head_event : HeadEvent → TaskDispatcher → TaskDispatcher
on_head_event subscription_error d = d
on_head_event (eth_header number) d = record d { header_height = big_uint64 number }

-- A header may be of any height, also of a lower one, below the largest uint64.
abbrev pub Fits : HeadEvent → Type 0
Fits subscription_error = Unit
Fits (eth_header number) = suc (big_uint64 number) < u64_mod

-- One step of a goroutine.
pub data Move (d : TaskDispatcher) : TaskDispatcher → Type 0 where
  head_event : (event : HeadEvent) → Fits event → Move d (on_head_event event d)
  stop : Move d (record d { stopped = true })
  sleep : (height : ℕ) → d.loop ≡ at_height height → d.header_height < height → Move d d
  begin_range :
      (height : ℕ)
      → d.loop ≡ at_height height
      → height ≤ d.header_height
      → Move d (record d { loop = in_range height d.header_height })
  put_input :
      (i to : ℕ)
      → d.loop ≡ in_range i to
      → i ≤ to
      → d.stopped ≡ false
      → Move d (record d { loop = in_range ((i + 1) % u64_mod) to; puts = d.puts ++ i ∷ [] })
  interrupted :
      (i to : ℕ)
      → d.loop ≡ in_range i to
      → i ≤ to
      → d.stopped ≡ true
      → Move d (record d { loop = returned i; fin_input = true })
  end_range :
      (i to : ℕ)
      → d.loop ≡ in_range i to
      → to < i
      → Move d (record d { loop = at_height ((to + 1) % u64_mod) })

pub data Moves (d : TaskDispatcher) : TaskDispatcher → Type 0 where
  here : Moves d d
  then_move : {e f : TaskDispatcher} → Moves d e → Move e f → Moves d f

-- Where the loop stands, the next height is `next`.
abbrev pub IsAt : ℕ → Bool → Loop → Type 0
IsAt next fin (at_height height) = (height ≡ next) × (fin ≡ false)
IsAt next fin (in_range i to) = (i ≡ next) × (i ≤ suc to) × (suc to < u64_mod) × (fin ≡ false)
IsAt next fin (returned i) = (i ≡ next) × (fin ≡ true)

pub record Inv (from_height : ℕ) (d : TaskDispatcher) : Type 0 where
  pub many : ℕ
  pub in_order : d.puts ≡ heights from_height many
  pub at_next : IsAt (from_height + many) d.fin_input d.loop
  pub room : suc d.header_height < u64_mod
