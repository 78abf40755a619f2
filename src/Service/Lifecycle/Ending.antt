-- ===== src/Service/Lifecycle/Ending.antt =====
-- The way of a running service to its end.
use uniswapv3_tick_state.Prelude.{
  ℕ, suc, ◌+◌, ◌≤◌, ◌<◌, ◌%◌, ◌≡◌, refl, sym, ◌∙◌, inl, inr, true, Option, List, [], ◌∷◌, ◌++◌,
  append-nil, append_assoc, pos, u64_mod, leb, leb→le, leb→lt, Bool-cases, All, arith,
}
use uniswapv3_tick_state.Address.{AddressType}
use uniswapv3_tick_state.Engine.{Engine}
use uniswapv3_tick_state.Engine.Laws.{EngineLaws}
use uniswapv3_tick_state.Types.{big_uint64}
use uniswapv3_tick_state.DbWrap.Contents.{IsWellFormed}
use uniswapv3_tick_state.SafeDb.{Guarded}
use uniswapv3_tick_state.PoolGetter.{Pair, Lens}
use uniswapv3_tick_state.Parser.{Abi, Receipt, BlockReceipt}
use uniswapv3_tick_state.Parser.Spec.{AbiLaws}
use uniswapv3_tick_state.Dispatcher.Heights.{heights}
use uniswapv3_tick_state.Dispatcher.System.{
  Loop, at_height, in_range, returned, TaskDispatcher, Move, head_event, eth_header, stop,
  begin_range, interrupted, end_range, IsAt,
}
use uniswapv3_tick_state.Crawler.{length, Crawler, Steps, begin, more}
use uniswapv3_tick_state.Crawler.Progress.{finish, steps_left}
use uniswapv3_tick_state.Service.Blocks.{contents_view}
use uniswapv3_tick_state.Service.Feed.{Follows}
use uniswapv3_tick_state.Service.Lifecycle.{
  running, closed, Life, start_life, dispatch, crawl, close_output, put_block, shutdown, Lives,
  born, beats,
}
use uniswapv3_tick_state.Service.Lifecycle.Parts.{many_of}
use uniswapv3_tick_state.Service.Lifecycle.Holds.{
  Holds, start-Holds, next_put, Beat-Holds, Lives-Holds,
}

module _ (t : AddressType) (e : Engine) (lens : Lens t.Address) (get_pair : t.Address → Option Pair)
    (abi : Abi) (node : ℕ → List (Receipt t.Address)) (pool_size : ℕ) where
  open t use {Address}

  module _ (start : Life Address (Guarded Address e.State)) where
    -- What a running service can still come to.
    abbrev Reached : Life Address (Guarded Address e.State) → Type 0
    Reached p = Lives t e lens get_pair abi node pool_size start p × (p.phase ≡ running)

    -- The dispatcher's part in a life.
    record Halts (p : Life Address (Guarded Address e.State)) : Type 0 where
      after : Life Address (Guarded Address e.State)
      reached : Reached after
      fin : after.dispatcher.fin_input ≡ true
      puts : after.dispatcher.puts ≡ p.dispatcher.puts

    quiet :
        (p : Life Address (Guarded Address e.State)) (d : TaskDispatcher)
        → Reached p
        → Move p.dispatcher d
        → d.puts ≡ p.dispatcher.puts
        → Reached (record p {
          dispatcher = d;
          crawler = record p.crawler { input_queue = p.crawler.input_queue ++ [] };
        })
    quiet p d (lives, on) move same =
        (beats lives (dispatch d [] on move (same ∙ sym (append-nil p.dispatcher.puts))), on)

    interrupt :
        (i to : ℕ) (p : Life Address (Guarded Address e.State))
        → Reached p
        → p.dispatcher.loop ≡ in_range i to
        → i ≤ to
        → Halts p
    interrupt i to p reached stands le = record {
      after = _;
      reached = quiet _ _ (quiet p _ reached stop refl) (interrupted i to stands le refl) refl;
      fin = refl;
      puts = refl;
    }

    wake :
        (h : ℕ) (p : Life Address (Guarded Address e.State))
        → Reached p
        → p.dispatcher.loop ≡ at_height h
        → suc h < u64_mod
        → Halts p
    unfolding big_uint64
    wake h p reached stands fits =
        let header : big_uint64 (pos h) ≡ h = omega arith in
        let halts =
          interrupt h (big_uint64 (pos h)) _
            (quiet _ _ (quiet p _ reached (head_event (eth_header (pos h)) (omega arith)) refl)
              (begin_range h stands (omega arith)) refl)
            refl (omega arith) in
        record { after = halts.after; reached = halts.reached; fin = halts.fin; puts = halts.puts }

    halt :
        (p : Life Address (Guarded Address e.State)) (loop : Loop) (n : ℕ)
        → Reached p
        → p.dispatcher.loop ≡ loop
        → IsAt n p.dispatcher.fin_input loop
        → suc n < u64_mod
        → Halts p
    halt p (returned i) n reached stands at fits = record {
      after = p;
      reached = reached;
      fin = at.1;
      puts = refl;
    }
    halt p (at_height h) n reached stands at fits =
        let same : h ≡ n = at.0 in wake h p reached stands (omega arith)
    halt p (in_range i to) n reached stands at fits = elim (Bool-cases (leb i to)) [
      | inl le ↦ interrupt i to p reached stands (leb→le i to le)
      | inr over ↦
          let same : i ≡ n = at.0 in
          let near : i ≤ suc to = at.1 in
          let room : suc to < u64_mod = at.2 in
          let gt = leb→lt i to over in
          let halts =
            wake ((to + 1) % u64_mod) _ (quiet p _ reached (end_range i to stands gt) refl) refl
              (omega arith) in
          record {
            after = halts.after;
            reached = halts.reached;
            fin = halts.fin;
            puts = halts.puts;
          }
    ]

    crawl_all :
        (p : Life Address (Guarded Address e.State)) (c : Crawler Address)
        → Reached p
        → Steps node pool_size p.crawler c
        → Reached (record p { crawler = c })
    crawl_all p c reached begin = reached
    crawl_all p c reached (more {d} steps last) =
        let (lives, on) = crawl_all p d reached steps in (beats lives (crawl c on last), on)

  module _ (laws : EngineLaws e) (abi_laws : AbiLaws abi) (from : ℕ) (s : Guarded Address e.State)
      (pos_from : 0 < from)
      (follows : (n : ℕ) → All (Follows t abi node (contents_view t laws s)) (heights from n)) where
    abbrev Held : Life Address (Guarded Address e.State) → Type 0
    Held p = Holds t e lens get_pair abi node pool_size laws abi_laws from s pos_from follows p

    -- The blocks that are pending go through parser and reactor, and FinInput follows them.
    drain :
        (start : Life Address (Guarded Address e.State)) (pending : List (BlockReceipt Address))
        (p : Life Address (Guarded Address e.State))
        → Held p
        → Reached start p
        → p.output_closed ≡ true
        → p.crawler.sequencer.result_chan ≡ p.committed ++ pending
        → (q : Life Address (Guarded Address e.State)) × Lives t e lens get_pair abi node pool_size
            start q
          × (q.phase ≡ closed)
          × (q.dispatcher.puts ≡ p.dispatcher.puts)
    drain start [] p h (lives, on) shut out =
        (_, beats lives (shutdown on shut (out ∙ append-nil p.committed)), refl, refl)
    drain start (b ∷ rest) p h (lives, on) shut out =
        let put =
          next_put t e lens get_pair abi node pool_size laws abi_laws from s pos_from follows p b
            rest h out in
        let beat = put_block b rest on out put in
        drain start rest _
          (Beat-Holds t e lens get_pair abi node pool_size laws abi_laws from s pos_from follows p _
            h beat)
          (beats lives beat, on) shut (out ∙ sym (append_assoc p.committed (b ∷ []) rest))

    -- From a running service of which all holds, the end can be reached.
    ends :
        (p : Life Address (Guarded Address e.State))
        → 0 < pool_size
        → suc (from + length p.dispatcher.puts) < u64_mod
        → Held p
        → p.phase ≡ running
        → (q : Life Address (Guarded Address e.State)) × Lives t e lens get_pair abi node pool_size
            p q
          × (q.phase ≡ closed)
          × (q.dispatcher.puts ≡ p.dispatcher.puts)
    ends p workers next_fits h on =
        let many : length p.dispatcher.puts ≡ h.dispatched.many =
          many_of from p.dispatcher h.dispatched in
        let halts =
          halt p p p.dispatcher.loop (from + h.dispatched.many) (born, on) refl h.dispatched.at_next
            (omega arith) in
        let r = halts.after in
        let holds =
          Lives-Holds t e lens get_pair abi node pool_size laws abi_laws from s pos_from follows in
        let k = holds p r h halts.reached.0 in
        let (c, steps, (out, queue, fetching, waiting)) =
          finish node pool_size (suc (steps_left node pool_size r.crawler)) from k.dispatched.many
            r.crawler workers k.fits k.crawled (omega arith) in
        let (lives', on') = crawl_all p r c halts.reached steps in
        let idle = beats lives' (close_output on' halts.fin queue fetching waiting) in
        let last = holds p _ h idle in
        let (q, lives_q, over, puts) =
          drain p last.pending _ last (idle, on') refl last.in_buffer in
        (q, lives_q, over, puts ∙ halts.puts)

  -- A service that runs, after whatever interleaving of dispatcher, crawler, parser and reactor with
  -- requests to the API, with at least one worker of the crawler, its store well formed at the start,
  -- the engine and the ABI keeping their documented laws, the events of the node's blocks all of pools
  -- stored at the start, and the next height below the largest uint64: it is not stuck, but further
  -- steps bring it from there to its end by FinInput, the dispatcher putting no height more.
  pub can_end :
      (block_number from : ℕ) (s : Guarded Address e.State) (laws : EngineLaws e)
      (abi_laws : AbiLaws abi) (p : Life Address (Guarded Address e.State))
      → 0 < pool_size
      → suc block_number < u64_mod
      → 0 < from
      → suc (from + length p.dispatcher.puts) < u64_mod
      → IsWellFormed t (laws.find s.inner)
      → ((n : ℕ) → All (Follows t abi node (contents_view t laws s)) (heights from n))
      → Lives t e lens get_pair abi node pool_size
          (start_life t e lens get_pair abi node pool_size block_number from s)
          p
      → p.phase ≡ running
      → (q : Life Address (Guarded Address e.State)) × Lives t e lens get_pair abi node pool_size p
          q
        × (q.phase ≡ closed)
        × (q.dispatcher.puts ≡ p.dispatcher.puts)
  can_end block_number from s laws abi_laws p workers room pos_from next_fits w follows lives on =
      ends laws abi_laws from s pos_from follows p workers next_fits
        (Lives-Holds t e lens get_pair abi node pool_size laws abi_laws from s pos_from follows _ p
          (start-Holds t e lens get_pair abi node pool_size laws abi_laws from s pos_from follows
            block_number room (omega arith) w)
          lives)
        on
