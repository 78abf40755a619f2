-- ===== src/Service/Lifecycle/Holds.antt =====
-- What holds all through the service's life.
use mathlib.Core.Path.{subst}
use uniswapv3_tick_state.Prelude.{
  ℕ, suc, ◌+◌, ◌<◌, ◌≡◌, refl, sym, ap, ◌∙◌, Bool, true, false, Option, List, [], ◌∷◌, ◌++◌,
  append_assoc, u64_mod, All, arith,
}
use uniswapv3_tick_state.Result.{ok}
use uniswapv3_tick_state.Address.{AddressType}
use uniswapv3_tick_state.Engine.{Engine}
use uniswapv3_tick_state.Engine.Laws.{EngineLaws}
use uniswapv3_tick_state.DbWrap.Contents.{IsWellFormed}
use uniswapv3_tick_state.SafeDb.{Guarded}
use uniswapv3_tick_state.PoolGetter.{Pair, Lens}
use uniswapv3_tick_state.Parser.{Abi, Receipt, BlockReceipt}
use uniswapv3_tick_state.Parser.Spec.{AbiLaws}
use uniswapv3_tick_state.Sequencer.{new_sequencer}
use uniswapv3_tick_state.Dispatcher.Heights.{heights}
use uniswapv3_tick_state.Dispatcher.System
use uniswapv3_tick_state.Dispatcher.System.{returned, here, IsAt}
use uniswapv3_tick_state.Dispatcher.System.Orders
use uniswapv3_tick_state.Crawler.{Crawler, Step}
use uniswapv3_tick_state.Crawler.Invariant
use uniswapv3_tick_state.Crawler.Invariant.{
  blocks_at, begin-Inv, Step-Inv, count, within, itself, height_of,
}
use uniswapv3_tick_state.Service.{service_put_block}
use uniswapv3_tick_state.Service.Blocks.{contents_view}
use uniswapv3_tick_state.Service.Feed.{Follows}
use uniswapv3_tick_state.Service.Lifecycle.{
  Phase, running, closed, crashed, Life, start_life, Beat, dispatch, crawl, close_output, put_block,
  put_fails, request_read, request_miss, request_store, request_fail, shutdown, Lives, born, beats,
}
use uniswapv3_tick_state.Service.Lifecycle.Parts.{
  none_added, heights_on, Move-fits, Move-closed, grown-Inv, Step-out, Step-idle,
}
use uniswapv3_tick_state.Service.Lifecycle.Kept.{
  is_stored, middle, IsOfPools, blocks_at-IsOfPools, Kept, put-Kept, read-Kept, miss-Kept,
  store-Kept,
}

module _ (t : AddressType) (e : Engine) (lens : Lens t.Address) (get_pair : t.Address → Option Pair)
    (abi : Abi) (node : ℕ → List (Receipt t.Address)) (pool_size : ℕ) where
  open t use {Address}

  abbrev pub Service : Type 0
  Service = Life Address (Guarded Address e.State)

  -- While the buffer is closed, nothing is on its way.
  abbrev pub Drained : Bool → Service → Type 0
  Drained false p = Unit
  Drained true p =
      (p.dispatcher.fin_input ≡ true)
      × (p.crawler.input_queue ≡ [])
      × (p.crawler.fetching ≡ [])
      × (p.crawler.waiting ≡ [])

  -- The service does not crash, and where it has ended, all of the closed buffer was put.
  abbrev pub Ended : Phase → Service → Type 0
  Ended running p = Unit
  Ended closed p = (p.output_closed ≡ true) × (p.crawler.sequencer.result_chan ≡ p.committed)
  Ended crashed p = ⊥

  runs_on : (q : Phase) (p : Service) → q ≡ running → Ended q p
  runs_on q p on = subst (λ r. Ended r p) (sym on) tt

  stays-Drained :
      (b : Bool) (p q : Service) → (Drained true p → Drained true q) → Drained b p → Drained b q
  stays-Drained true p q keep drained = keep drained
  stays-Drained false p q keep drained = tt

  module _ (laws : EngineLaws e) (abi_laws : AbiLaws abi) (from : ℕ) (s : Guarded Address e.State)
      (pos_from : 0 < from)
      (follows : (n : ℕ) → All (Follows t abi node (contents_view t laws s)) (heights from n)) where
    pub record Holds (p : Service) : Type 0 where
      pub dispatched : System.Inv from p.dispatcher
      pub fits : from + dispatched.many < u64_mod
      pub crawled : Invariant.Inv node from dispatched.many p.crawler
      pub pending : List (BlockReceipt Address)
      pub in_buffer : p.crawler.sequencer.result_chan ≡ p.committed ++ pending
      pub drained : Drained p.output_closed p
      pub missing : All (λ a. is_stored (contents_view t laws s) a ≡ false) p.requests
      pub kept :
          Kept t e lens get_pair abi laws abi_laws
            (contents_view t laws s)
            p.committed
            p.store.inner
      pub ended : Ended p.phase p

    pub start-Holds :
        (block_number : ℕ)
        → suc block_number < u64_mod
        → from < u64_mod
        → IsWellFormed t (laws.find s.inner)
        → Holds (start_life t e lens get_pair abi node pool_size block_number from s)
    unfolding new_sequencer
    start-Holds block_number room fits w = record {
      dispatched = record { many = 0; in_order = refl; at_next = (omega arith, refl); room = room };
      fits = omega arith;
      crawled = begin-Inv node from 0 (omega arith);
      pending = [];
      in_buffer = refl;
      drained = tt;
      missing = tt;
      kept = record { wf = w; alive = λ a is. ground arith; seen = refl };
      ended = tt;
    }

    dispatch-Holds :
        (p : Service) (d : System.TaskDispatcher) (hs : List ℕ)
        → Holds p
        → p.phase ≡ running
        → System.Move p.dispatcher d
        → d.puts ≡ p.dispatcher.puts ++ hs
        → Holds (record p {
          dispatcher = d;
          crawler = record p.crawler { input_queue = p.crawler.input_queue ++ hs };
        })
    dispatch-Holds p d hs h on move puts =
        let inv' = Orders.Move-Inv from p.dispatcher d h.dispatched move in
        let (k, many, new) =
          heights_on from h.dispatched.many inv'.many hs
            (sym inv'.in_order ∙ puts ∙ ap (λ l. l ++ hs) h.dispatched.in_order) in
        record {
          dispatched = inv';
          fits = Move-fits from p.dispatcher d h.dispatched inv' move h.fits;
          crawled =
              rw (many, new)
                (grown-Inv node pool_size from h.dispatched.many k p.crawler h.crawled);
          pending = h.pending;
          in_buffer = h.in_buffer;
          drained =
              stays-Drained p.output_closed p _
                (λ now.
                  let (fin, same) = Move-closed from p.dispatcher d h.dispatched now.0 move in
                  let none_new = none_added p.dispatcher.puts hs (sym puts ∙ same) in
                  (fin, ap (λ l. l ++ hs) now.1 ∙ none_new, now.2, now.3))
                h.drained;
          missing = h.missing;
          kept = h.kept;
          ended = runs_on p.phase _ on;
        }

    crawl-Holds :
        (p : Service) (c : Crawler Address)
        → Holds p
        → p.phase ≡ running
        → Step node pool_size p.crawler c
        → Holds (record p { crawler = c })
    crawl-Holds p c h on step =
        let (more, out) = Step-out node pool_size p.crawler c step in
        record {
          dispatched = h.dispatched;
          fits = h.fits;
          crawled =
              Step-Inv node pool_size from h.dispatched.many p.crawler c h.fits h.crawled step;
          pending = h.pending ++ more;
          in_buffer =
              out ∙ ap (λ bs. bs ++ more) h.in_buffer ∙ append_assoc p.committed h.pending more;
          drained =
              stays-Drained p.output_closed p _
                (λ now. absurd (Step-idle node pool_size p.crawler c now.1 now.2 now.3 step))
                h.drained;
          missing = h.missing;
          kept = h.kept;
          ended = runs_on p.phase _ on;
        }

    -- A block of the buffer has events of stored pools alone.
    of_buffer :
        (p : Service) (block : BlockReceipt Address) (rest : List (BlockReceipt Address))
        → Holds p
        → p.crawler.sequencer.result_chan ≡ p.committed ++ block ∷ rest
        → IsOfPools t abi (is_stored (contents_view t laws s)) block
    of_buffer p block rest h out =
        let all =
          blocks_at-IsOfPools t abi node (contents_view t laws s) from h.crawled.done pos_from
            (let le = h.crawled.done_le in
              let sum = h.crawled.total_eq in let fits = h.fits in omega arith)
            (follows h.crawled.done) in
        let same : blocks_at node (heights from h.crawled.done) ≡ p.committed ++ block ∷ rest =
          sym h.crawled.out ∙ out in
        (middle (IsOfPools t abi (is_stored (contents_view t laws s))) p.committed block rest
          (subst (All (IsOfPools t abi (is_stored (contents_view t laws s)))) same all)).0

    pub next_put :
        (p : Service) (block : BlockReceipt Address) (rest : List (BlockReceipt Address))
        → Holds p
        → p.crawler.sequencer.result_chan ≡ p.committed ++ block ∷ rest
        → (service_put_block t e lens get_pair abi block p.store).0 ≡ ok tt
    next_put p block rest h out =
        (put-Kept t e lens get_pair abi laws abi_laws (contents_view t laws s) p.committed block
          p.store h.kept (of_buffer p block rest h out)).0

    -- What the steps of the API change: the store and the requests.
    api-Holds :
        (p : Service) (store : Guarded Address e.State) (requests : List Address)
        → Holds p
        → p.phase ≡ running
        → All (λ a. is_stored (contents_view t laws s) a ≡ false) requests
        → Kept t e lens get_pair abi laws abi_laws (contents_view t laws s) p.committed store.inner
        → Holds (record p { store = store; requests = requests })
    api-Holds p store requests h on missing kept = record {
      dispatched = h.dispatched;
      fits = h.fits;
      crawled = h.crawled;
      pending = h.pending;
      in_buffer = h.in_buffer;
      drained = stays-Drained p.output_closed p _ (λ now. now) h.drained;
      missing = missing;
      kept = kept;
      ended = runs_on p.phase _ on;
    }

    pub Beat-Holds :
        (p q : Service) → Holds p → Beat t e lens get_pair abi node pool_size p q → Holds q
    Beat-Holds p _ h (dispatch d hs on move puts) = dispatch-Holds p d hs h on move puts
    Beat-Holds p _ h (crawl c on step) = crawl-Holds p c h on step
    Beat-Holds p _ h (close_output on fin queue fetching waiting) = record {
      dispatched = h.dispatched;
      fits = h.fits;
      crawled = h.crawled;
      pending = h.pending;
      in_buffer = h.in_buffer;
      drained = (fin, queue, fetching, waiting);
      missing = h.missing;
      kept = h.kept;
      ended = runs_on p.phase _ on;
    }
    Beat-Holds p _ h (put_block block rest on out put) = record {
      dispatched = h.dispatched;
      fits = h.fits;
      crawled = h.crawled;
      pending = rest;
      in_buffer = out ∙ sym (append_assoc p.committed (block ∷ []) rest);
      drained = stays-Drained p.output_closed p _ (λ now. now) h.drained;
      missing = h.missing;
      kept =
          (put-Kept t e lens get_pair abi laws abi_laws (contents_view t laws s) p.committed block
            p.store h.kept (of_buffer p block rest h out)).1;
      ended = runs_on p.phase _ on;
    }
    Beat-Holds p _ h (put_fails block rest on out fails) =
        absurd (fails (next_put p block rest h out))
    Beat-Holds p _ h (request_read a on found) = api-Holds p _ p.requests h on h.missing (
        read-Kept t e lens get_pair abi laws abi_laws (contents_view t laws s) p.committed a p.store
          h.kept)
    Beat-Holds p _ h (request_miss a on missing) =
        api-Holds p _ (a ∷ p.requests) h on
          (
            miss-Kept t e lens get_pair abi laws abi_laws (contents_view t laws s) p.committed a
                p.store h.kept missing,
            h.missing,
          )
          (read-Kept t e lens get_pair abi laws abi_laws (contents_view t laws s) p.committed a
            p.store h.kept)
    Beat-Holds p _ h (request_store before a after o on eq) =
        let (other, rest) =
          middle (λ a. is_stored (contents_view t laws s) a ≡ false) before a after
            (subst (All (λ a. is_stored (contents_view t laws s) a ≡ false)) eq h.missing) in
        api-Holds p _ (before ++ after) h on rest (
          store-Kept t e lens get_pair abi laws abi_laws (contents_view t laws s) p.committed a o
            p.store h.kept other)
    Beat-Holds p _ h (request_fail before a after on eq) =
        api-Holds p p.store (before ++ after) h on
          (middle (λ a. is_stored (contents_view t laws s) a ≡ false) before a after
            (subst (All (λ a. is_stored (contents_view t laws s) a ≡ false)) eq h.missing)).1
          h.kept
    Beat-Holds p _ h (shutdown on closed_output all_put) = record {
      dispatched = h.dispatched;
      fits = h.fits;
      crawled = h.crawled;
      pending = h.pending;
      in_buffer = h.in_buffer;
      drained = stays-Drained p.output_closed p _ (λ now. now) h.drained;
      missing = h.missing;
      kept = h.kept;
      ended = (closed_output, all_put);
    }

    pub Lives-Holds :
        (p q : Service) → Holds p → Lives t e lens get_pair abi node pool_size p q → Holds q
    Lives-Holds p _ h born = h
    Lives-Holds p r h (beats {q} lives beat) = Beat-Holds q r (Lives-Holds p q h lives) beat
