-- ===== src/Service/Lifecycle/Shutdown.antt =====
-- The service where it has ended by FinInput.
use mathlib.Core.Path.{subst}
use uniswapv3_tick_state.Prelude.{
  ℕ, ◌+◌, ◌<◌, ◌≡◌, sym, ap, ◌∙◌, Bool, true, Option, List, [], u64_mod, All, arith,
}
use uniswapv3_tick_state.Address.{AddressType}
use uniswapv3_tick_state.Engine.{Engine}
use uniswapv3_tick_state.Engine.Laws.{EngineLaws}
use uniswapv3_tick_state.Parser.Spec.{AbiLaws}
use uniswapv3_tick_state.Service.Blocks.{contents_view}
use uniswapv3_tick_state.SafeDb.{Guarded}
use uniswapv3_tick_state.PoolGetter.{Pair, Lens}
use uniswapv3_tick_state.Parser.{Abi, Receipt}
use uniswapv3_tick_state.Dispatcher.Heights.{heights}
use uniswapv3_tick_state.Dispatcher.System
use uniswapv3_tick_state.Dispatcher.System.{returned, here, IsAt}
use uniswapv3_tick_state.Crawler.{length, Crawler}
use uniswapv3_tick_state.Crawler.Invariant
use uniswapv3_tick_state.Crawler.Invariant.{
  blocks_at, begin-Inv, Step-Inv, count, within, itself, height_of,
}
use uniswapv3_tick_state.Service.Feed.{Follows}
use uniswapv3_tick_state.Service.Lifecycle.{closed, Life}
use uniswapv3_tick_state.Service.Lifecycle.Parts.{length-heights}
use uniswapv3_tick_state.Service.Lifecycle.Holds.{Drained, Ended, Holds}

module _ (t : AddressType) (e : Engine) (lens : Lens t.Address) (get_pair : t.Address → Option Pair)
    (abi : Abi) (node : ℕ → List (Receipt t.Address)) (pool_size : ℕ) where
  open t use {Address}

  at_return :
      (next : ℕ) (loop : System.Loop) (fin : Bool)
      → fin ≡ true
      → IsAt next fin loop
      → loop ≡ returned next
  at_return next (System.at_height height) fin e at = absurd (cc (e, at.1))
  at_return next (System.in_range i to) fin e at = absurd (cc (e, at.3))
  at_return next (returned i) fin e at = ap returned at.0

  -- A crawler with an empty queue and idle workers has put out the blocks of all the heights.
  idle_done :
      (from total : ℕ) (c : Crawler Address) (inv : Invariant.Inv node from total c)
      → c.input_queue ≡ []
      → c.fetching ≡ []
      → c.waiting ≡ []
      → inv.done ≡ total
  idle_done from total c inv no_queue no_fetch no_wait =
      let none_left : inv.left ≡ 0 =
        sym (length-heights (from + inv.taken) inv.left) ∙ ap length (sym inv.queue ∙ no_queue) in
      let none_taken : 0 ≡ within (from + inv.done) (from + inv.taken) (from + inv.done) =
        ap (λ hs. count itself (from + inv.done) hs + 0) (sym no_fetch)
        ∙ ap
            (λ bs. count itself (from + inv.done) c.fetching + count height_of (from + inv.done) bs)
            (sym no_wait)
        ∙ inv.counted (from + inv.done) in
      let sum = inv.total_eq in let le = inv.done_le in ground arith

  module _ (laws : EngineLaws e) (abi_laws : AbiLaws abi) (from : ℕ) (s : Guarded Address e.State)
      (pos_from : 0 < from)
      (follows : (n : ℕ) → All (Follows t abi node (contents_view t laws s)) (heights from n)) where
    -- Where the service has ended by FinInput, the dispatcher's loop has returned, and the blocks of
    -- all the heights it had put went through parser and reactor.
    pub shutdown_lem :
        (p : Life Address (Guarded Address e.State))
        → Holds t e lens get_pair abi node pool_size laws abi_laws from s pos_from follows p
        → p.phase ≡ closed
        → (n : ℕ) × (p.dispatcher.puts ≡ heights from n)
          × (p.dispatcher.loop ≡ returned (from + n))
          × (from + n < u64_mod)
          × (p.committed ≡ blocks_at node (heights from n))
    shutdown_lem p h over =
        let (closed_output, all_put) =
          subst (λ q. Ended t e lens get_pair abi node pool_size q p) over h.ended in
        let (fin, queue, fetching, waiting) =
          subst (λ b. Drained t e lens get_pair abi node pool_size b p) closed_output h.drained in
        let many = h.dispatched.many in
        (
          many,
          h.dispatched.in_order,
          at_return (from + many) p.dispatcher.loop p.dispatcher.fin_input fin h.dispatched.at_next,
          h.fits,
          sym all_put
              ∙ h.crawled.out
              ∙ ap (λ k. blocks_at node (heights from k))
                  (idle_done from many p.crawler h.crawled queue fetching waiting),
        )
