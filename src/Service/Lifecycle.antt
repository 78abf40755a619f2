-- ===== src/Service/Lifecycle.antt =====
-- The service from its start to its end: the dispatcher feeds the crawler's queue, the crawler's
-- output goes through parser and reactor, requests to the API read pools and store those that are
-- missing, and FinInput passes from each part to the next, until the reactor closes the database and
-- main returns. PutInput of a block is one step, as is each call of the database by a request.
-- Channels have no bound here: in the code a sender waits where its channel is full.
pub mod Parts
pub mod Requests
pub mod Kept
pub mod Holds
pub mod Shutdown
pub mod Resume
pub mod Ending
use uniswapv3_tick_state.Prelude.{ℕ, ◌≡◌, ◌≢◌, Bool, true, false, Option, none, List, [], ◌∷◌, ◌++◌}
use uniswapv3_tick_state.Result.{ok}
use uniswapv3_tick_state.Address.{AddressType}
use uniswapv3_tick_state.Engine.{Engine}
use uniswapv3_tick_state.SafeDb.{Guarded}
use uniswapv3_tick_state.PoolGetter.{Pair, Lens, LensOutput, pool_of_output}
use uniswapv3_tick_state.Parser.{Abi, Receipt, BlockReceipt}
use uniswapv3_tick_state.Dispatcher.{before_height}
use uniswapv3_tick_state.Dispatcher.System.{TaskDispatcher, Move, started}
use uniswapv3_tick_state.Crawler.{Crawler, Step, new_block_crawler}
use uniswapv3_tick_state.Service.{service_db, service_put_block}

-- Running; ended by FinInput, with the database closed; or ended by Log.Fatal or a panic.
pub data Phase : Type 0 where
  running closed crashed : Phase

-- `committed` are the blocks that startCommitOutput took from the output buffer and put, and
-- `output_closed` is whether the crawler has closed the buffer. The crawler's queue is closed where
-- the dispatcher has called FinInput. `requests` are the pools that requests to the API found missing
-- in the database, and for which they have yet to store the lens contract's answer.
pub record Life (Address S : Type 0) : Type 0 where
  pub dispatcher : TaskDispatcher
  pub crawler : Crawler Address
  pub output_closed : Bool
  pub committed : List (BlockReceipt Address)
  pub store : S
  pub requests : List Address
  pub phase : Phase

-- FinInput of parser and reactor: the database is closed, and main's WaitGroup is done.
abbrev pub fin_input : {Address S : Type 0} → Life Address S → Life Address S
fin_input p = record p { phase = closed }

module _ (t : AddressType) (e : Engine) (lens : Lens t.Address) (get_pair : t.Address → Option Pair)
    (abi : Abi) (node : ℕ → List (Receipt t.Address)) (pool_size : ℕ) where
  open t use {Address}

  -- main, with the dispatcher started at `from_height`.
  abbrev pub start_life : ℕ → ℕ → Guarded Address e.State → Life Address (Guarded Address e.State)
  start_life block_number from_height store = record {
    dispatcher = started block_number from_height;
    crawler = new_block_crawler (before_height from_height) [];
    output_closed = false;
    committed = [];
    store = store;
    requests = [];
    phase = running;
  }

  -- One step of a goroutine, while the process runs.
  pub data Beat (p : Life Address (Guarded Address e.State))
      : Life Address (Guarded Address e.State) → Type 0 where
    -- the dispatcher; what it puts is in the crawler's queue
    dispatch :
        (d : TaskDispatcher) (heights : List ℕ)
        → p.phase ≡ running
        → Move p.dispatcher d
        → d.puts ≡ p.dispatcher.puts ++ heights
        → Beat p (record p {
          dispatcher = d;
          crawler = record p.crawler { input_queue = p.crawler.input_queue ++ heights };
        })
    -- the crawler's loop over the queue, or one of its workers
    crawl :
        (c : Crawler Address)
        → p.phase ≡ running
        → Step node pool_size p.crawler c
        → Beat p (record p { crawler = c })
    -- the end of the crawler's loop: the queue is closed and empty, and no worker is busy
    close_output :
        p.phase ≡ running
        → p.dispatcher.fin_input ≡ true
        → p.crawler.input_queue ≡ []
        → p.crawler.fetching ≡ []
        → p.crawler.waiting ≡ []
        → Beat p (record p { output_closed = true })
    -- the next block goes through parser and reactor
    put_block :
        (block : BlockReceipt Address) (rest : List (BlockReceipt Address))
        → p.phase ≡ running
        → p.crawler.sequencer.result_chan ≡ p.committed ++ block ∷ rest
        → (service_put_block t e lens get_pair abi block p.store).0 ≡ ok tt
        → Beat p (record p {
          committed = p.committed ++ block ∷ [];
          store = (service_put_block t e lens get_pair abi block p.store).1;
        })
    put_fails :
        (block : BlockReceipt Address) (rest : List (BlockReceipt Address))
        → p.phase ≡ running
        → p.crawler.sequencer.result_chan ≡ p.committed ++ block ∷ rest
        → (service_put_block t e lens get_pair abi block p.store).0 ≢ ok tt
        → Beat p (record p {
          store = (service_put_block t e lens get_pair abi block p.store).1;
          phase = crashed;
        })
    -- a request to the API reads its pool from the database, or an error
    request_read :
        (a : Address)
        → p.phase ≡ running
        → ((service_db t e lens get_pair).get_pool_state a p.store).0 ≢ ok none
        → Beat p (record p { store = ((service_db t e lens get_pair).get_pool_state a p.store).1 })
    -- a request finds that the database does not have its pool
    request_miss :
        (a : Address)
        → p.phase ≡ running
        → ((service_db t e lens get_pair).get_pool_state a p.store).0 ≡ ok none
        → Beat p (record p {
          store = ((service_db t e lens get_pair).get_pool_state a p.store).1;
          requests = a ∷ p.requests;
        })
    -- a request stores what the lens contract answered, at whatever block
    request_store :
        (before : List Address) (a : Address) (after : List Address) (o : LensOutput)
        → p.phase ≡ running
        → p.requests ≡ before ++ a ∷ after
        → Beat p (record p {
          store = ((service_db t e lens get_pair).set_pool_state a (pool_of_output o) p.store).1;
          requests = before ++ after;
        })
    -- the lens contract does not answer a request
    request_fail :
        (before : List Address) (a : Address) (after : List Address)
        → p.phase ≡ running
        → p.requests ≡ before ++ a ∷ after
        → Beat p (record p { requests = before ++ after })
    -- the end of startCommitOutput: the buffer is closed and empty
    shutdown :
        p.phase ≡ running
        → p.output_closed ≡ true
        → p.crawler.sequencer.result_chan ≡ p.committed
        → Beat p (fin_input p)

  pub data Lives (p : Life Address (Guarded Address e.State))
      : Life Address (Guarded Address e.State) → Type 0 where
    born : Lives p p
    beats : {q r : Life Address (Guarded Address e.State)} → Lives p q → Beat q r → Lives p r
