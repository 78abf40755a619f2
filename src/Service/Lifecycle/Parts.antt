-- ===== src/Service/Lifecycle/Parts.antt =====
-- What the dispatcher and the crawler give to the life of the service.
use mathlib.Core.List.{append_cancel_left}
use uniswapv3_tick_state.Prelude.{
  ℕ, zero, suc, ◌+◌, ◌<◌, ◌≡◌, refl, sym, ap, ◌∙◌, true, List, [], ◌∷◌, ◌++◌, append-nil, u64_mod,
  arith,
}
use uniswapv3_tick_state.Parser.{Receipt, BlockReceipt}
use uniswapv3_tick_state.Sequencer.Runs.{commit-inv}
use uniswapv3_tick_state.Dispatcher.Heights.{heights, heights-append}
use uniswapv3_tick_state.Dispatcher.System
use uniswapv3_tick_state.Dispatcher.System.{
  TaskDispatcher, Move, head_event, subscription_error, eth_header, stop, sleep, begin_range,
  put_input, interrupted, end_range, started, here, IsAt,
}
use uniswapv3_tick_state.Dispatcher.System.Orders
use uniswapv3_tick_state.Crawler.{length, Crawler, block_sequence, Step, submit, fetched, committed}
use uniswapv3_tick_state.Crawler.Invariant
use uniswapv3_tick_state.Crawler.Invariant.{begin-Inv, Step-Inv}

pub length-heights : (from n : ℕ) → length (heights from n) ≡ n
length-heights from zero = refl
length-heights from (suc n) = ap suc (length-heights (suc from) n)

length-append : {A : Type 0} (xs ys : List A) → length (xs ++ ys) ≡ length xs + length ys
length-append [] ys = omega arith
length-append (x ∷ xs) ys = omega (arith, length-append xs ys)

pub none_added : {A : Type 0} (xs ys : List A) → xs ++ ys ≡ xs → ys ≡ []
none_added xs ys e = append_cancel_left xs ys [] (e ∙ sym (append-nil xs))

-- What is added to a run of heights goes on with it.
pub heights_on :
    (from n m : ℕ) (hs : List ℕ)
    → heights from m ≡ heights from n ++ hs
    → (k : ℕ) × (m ≡ n + k) × (hs ≡ heights (from + n) k)
heights_on from n m hs e =
    let lengths : m ≡ n + length hs =
      sym (length-heights from m)
      ∙ ap length e
      ∙ length-append (heights from n) hs
      ∙ ap (λ k. k + length hs) (length-heights from n) in
    (
      length hs,
      lengths,
      append_cancel_left (heights from n) hs (heights (from + n) (length hs))
          (sym e ∙ ap (heights from) lengths ∙ sym (heights-append from n (length hs))),
    )

module _ (from : ℕ) where
  pub many_of : (d : TaskDispatcher) (inv : System.Inv from d) → length d.puts ≡ inv.many
  many_of d inv = ap length inv.in_order ∙ length-heights from inv.many

  -- The dispatcher's heights stay below the largest uint64.
  pub Move-fits :
      (d e : TaskDispatcher) (inv : System.Inv from d) (inv' : System.Inv from e)
      → Move d e
      → from + inv.many < u64_mod
      → from + inv'.many < u64_mod
  Move-fits d e inv inv' (put_input i to where_at le going) fits =
      let now = Orders.at from inv where_at in
      let next : i ≡ from + inv.many = now.0 in
      let room : suc to < u64_mod = now.2 in
      omega (arith, many_of d inv, many_of e inv', length-append d.puts (i ∷ []))
  Move-fits d e inv inv' (head_event (eth_header number) room) fits =
      omega (arith, many_of d inv, many_of e inv')
  Move-fits d e inv inv' (head_event subscription_error room) fits =
      omega (arith, many_of d inv, many_of e inv')
  Move-fits d e inv inv' stop fits = omega (arith, many_of d inv, many_of e inv')
  Move-fits d e inv inv' (sleep height where_at low) fits =
      omega (arith, many_of d inv, many_of e inv')
  Move-fits d e inv inv' (begin_range height where_at le) fits =
      omega (arith, many_of d inv, many_of e inv')
  Move-fits d e inv inv' (interrupted i to where_at le halted) fits =
      omega (arith, many_of d inv, many_of e inv')
  Move-fits d e inv inv' (end_range i to where_at lt) fits =
      omega (arith, many_of d inv, many_of e inv')

  -- After FinInput nothing is put.
  pub Move-closed :
      (d e : TaskDispatcher) (inv : System.Inv from d)
      → d.fin_input ≡ true
      → Move d e
      → (e.fin_input ≡ true) × (e.puts ≡ d.puts)
  Move-closed d _ inv fin (head_event (eth_header number) room) = (fin, refl)
  Move-closed d _ inv fin (head_event subscription_error room) = (fin, refl)
  Move-closed d _ inv fin stop = (fin, refl)
  Move-closed d _ inv fin (sleep height e low) = (fin, refl)
  Move-closed d _ inv fin (begin_range height e le) = (fin, refl)
  Move-closed d _ inv fin (put_input i to e le going) =
      let now = Orders.at from inv e in absurd (cc (now.3, fin))
  Move-closed d _ inv fin (interrupted i to e le halted) = (refl, refl)
  Move-closed d _ inv fin (end_range i to e lt) = (fin, refl)

module _ {Address : Type 0} (node : ℕ → List (Receipt Address)) (pool_size : ℕ) where
  -- Heights that come into the queue.
  pub grown-Inv :
      (from total k : ℕ) (c : Crawler Address)
      → Invariant.Inv node from total c
      → Invariant.Inv node from
          (total + k)
          (record c { input_queue = c.input_queue ++ heights (from + total) k })
  grown-Inv from total k c inv =
      let sum = inv.total_eq in
      record {
        done = inv.done;
        taken = inv.taken;
        left = inv.left + k;
        done_le = inv.done_le;
        total_eq = omega arith;
        queue =
            ap (λ hs. hs ++ heights (from + total) k) inv.queue
            ∙ ap (λ h. heights (from + inv.taken) inv.left ++ heights h k) (omega arith)
            ∙ heights-append (from + inv.taken) inv.left k;
        out = inv.out;
        turn = inv.turn;
        of_node = inv.of_node;
        counted = inv.counted;
      }

  pub Step-out :
      (c d : Crawler Address)
      → Step node pool_size c d
      → (more : List (BlockReceipt Address)) × (d.sequencer.result_chan
          ≡ c.sequencer.result_chan ++ more)
  Step-out c _ (submit height rest e free) = ([], sym (append-nil c.sequencer.result_chan))
  Step-out c _ (fetched before height after attempts block e are got) =
      ([], sym (append-nil c.sequencer.result_chan))
  Step-out c _ (committed before block after s e passed) =
      (block ∷ [], (commit-inv block_sequence block c.sequencer s passed).2)

  pub Step-idle :
      (c d : Crawler Address)
      → c.input_queue ≡ []
      → c.fetching ≡ []
      → c.waiting ≡ []
      → Step node pool_size c d
      → ⊥
  Step-idle c _ no_queue no_fetch no_wait (submit height rest e free) = cc
  Step-idle c _ no_queue no_fetch no_wait (fetched before height after attempts block e are got) =
      absurd (omega (arith, length-append before (height ∷ after), ap length (sym e ∙ no_fetch)))
  Step-idle c _ no_queue no_fetch no_wait (committed before block after s e passed) =
      absurd (omega (arith, length-append before (block ∷ after), ap length (sym e ∙ no_wait)))
