-- ===== src/Lib.antt =====
-- A service that follows the Uniswap v3 pools of a chain: it keeps the net liquidity of their ticks
-- in a RocksDB and answers, over HTTP, how much liquidity or how many tokens lie in which ranges.
--
-- The parts and how they interact. The dispatcher (task_dispatcher.go) puts block heights. Workers
-- of the crawler fetch the receipts of these blocks at the same time, and the sequencer
-- (sequencer.go) hands them on in order. The parser (block_parser.go) makes events of receipts, and
-- the reactor (event_reactor.go) applies the events of a block to the stored pools through the
-- interface DB (db_wrap.go), whose implementation keeps everything in RocksDB (rocks_db.go) under
-- the keys of tick_key.go. A request reads a stored pool, or fetches it and stores it, and computes
-- ranges and token amounts from it (liquidity_to_amount.go).
--
-- Which file models which part:
--   Dispatcher       task_dispatcher.go: dispatchRange, the loop of Start over the heights it reads,
--                    and GetFromHeight; Dispatcher.System has its goroutines and Stop as steps
--   Sequencer        sequencer.go: NewSequencer, Init and Commit; the goroutines inside Commit are
--                    a list, and the relation Reaches has every order in which they enter and pass
--   Crawler          block_crawler.go: Step is what its goroutines do, in any interleaving; the
--                    heights of the dispatcher are its queue
--   Parser           block_parser.go, and the topics of abi_instance/uniswap_v3_abi.go
--   Reactor          event_reactor.go: react_block_event is ReactBlockEvent, react_one the body of
--                    its loop, react_by the switch of reactEvent
--   Api              api_server.go: Api.Request has parseParams and FromHttpRequest, Api.Handler
--                    HandlerPoolState; Api.Window and Api.Answers what a request sees of a pool
--   ChartRender      data_render.go: what the page's template is executed on
--   ContractCaller   contract_caller.go: IsRetryableErr, callContract and CallContract
--   SafeDb           safe_db.go: new_safe_db is what one goroutine finds; SafeDb.System has the
--                    steps of any number of them, and SafeDb.Simulation and SafeDb.Refines say that
--                    the parts that run on a SafeDB do what they do on the database inside
--   Service          main.go: the parts put together over RocksDB; Service.Feed is the loop that hands
--                    the crawler's blocks on, Service.Restart where it begins again,
--                    and Service.Lifecycle has the steps of its goroutines from the start to FinInput
--                    and the closing of the database, or the end by an error: dispatcher, crawler,
--                    parser and reactor, and what GetPoolState of the API's requests does to the
--                    database. A block's PutInput is one step there
--   Startup          main.go from the flags on, InitLogger of log.go and NewRocksDB of rocks_db.go
--   Config           config.go: the defaults and LoadConfig; Config.Settings says what a file sets
--   PairCache        cache.go: GetPair
--   PairJson         pair.go: the pairs in Redis as JSON, with all their fields
--   Json             what encoding/json does with a struct: its fields, their names, null
--   DumpRocksDb      cmd/dump_rocks_db/main.go
--   PoolGetter       pool_state_getter.go, and GetPoolState of contract_caller.go
--   Pipeline         the methods PutInput of block_parser.go and event_reactor.go, as main.go
--                    connects them
--   Db               the interface DB of db_wrap.go as a record of operations; Db.Contract has the
--                    view of the stored pools and the laws that the operations keep
--   DbWrap           rocksDBWrap of db_wrap.go over an engine; the theorems are in its children, and
--                    DbWrap.Refines puts them together as the laws of Db.Contract
--   RocksDb, Engine  rocks_db.go, and the RocksDB library as a record of operations with laws
--   TickKey          tick_key.go, the key builders and integer codecs of db_wrap.go
--   Types            types.go, and the conversions of math/big
--   Gob, Bytes       GobEncode and GobDecode of math/big, encoding/binary, the order of byte strings
--   Address          common.Address of go-ethereum as a parameter
--   Liquidity        liquidity_to_amount.go; Liquidity.Ranges has the liquidity at a tick
--   Result           how a call ends (a value, an error, a panic), and actions on a state
--   Prelude          shared names, tests, lists and integers over native numbers
--   Samples, Tests   concrete parameters, and runs of the theorems at them
--
-- Parameters of the model, with what is taken from their documentation: the engine of RocksDB
-- (Engine.Laws: reads and writes of single keys, batches in order, range deletions without the
-- end, iterators in byte order), addresses of 20 bytes (Address), Unpack of the ABI library
-- (Parser.Spec.AbiLaws), floats (Liquidity.FloatOps), JSON and templates (ChartRender), the
-- answers of the memory cache and of Redis (PairCache) and of the node (ContractCaller.Node), the
-- text of JSON documents (Json.Names.JsonLaws), of addresses, decimals and times (PairJson). The
-- reactor takes its pool getter as a parameter, an interface of the code.
--
-- Integers of 32 and 64 bits wrap as the code's do; a *big.Int is an integer. A loop on a
-- wrapping counter runs on fuel: split_from takes one round for each piece, at most as many as
-- the range is long, and dispatch_range one for each height; enough fuel is a hypothesis of their
-- theorems, and they then return. All other loops follow a list. Channels have no bound: where one
-- is full, its sender waits, as if it took no step.
--
-- Not modelled: requests that use the database after it was closed, the page of the chart, the
-- text of the version and of RocksDB's statistics, the listening of the API, reading the command
-- line into flags, and the lens contract, which runs on the chain.
pub mod Prelude
pub mod Result
pub mod Bytes
pub mod Gob
pub mod Address
pub mod TickKey
pub mod Types
pub mod Engine
pub mod RocksDb
pub mod Db
pub mod DbWrap
pub mod Samples
pub mod Liquidity
pub mod Reactor
pub mod Parser
pub mod Sequencer
pub mod Dispatcher
pub mod Crawler
pub mod PoolGetter
pub mod PairCache
pub mod Pipeline
pub mod SafeDb
pub mod Service
pub mod ContractCaller
pub mod ChartRender
pub mod Api
pub mod Tests
pub mod Json
pub mod PairJson
pub mod Config
pub mod Startup
pub mod DumpRocksDb
