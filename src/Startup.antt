-- ===== src/Startup.antt =====
-- The start of main.go, up to the parts that it puts together, with InitLogger of log.go and
-- NewRocksDB of rocks_db.go. Opening files and databases and reading the names of log levels are
-- parameters.
pub mod Opening
use uniswapv3_tick_state.Prelude.{
  ℕ, ◌^◌, ◌≡◌, Bool, true, false, not, Option, none, some, List, [], ◌∷◌, ℤ, pos, ◌*ℤ◌, ltb, ltb_ℤ,
  if◌then◌else◌,
}
use uniswapv3_tick_state.Result.{Result, ok, err, panic, bind}
use uniswapv3_tick_state.Bytes.{Bytes, codes}
use uniswapv3_tick_state.Types.{big_int64}
use uniswapv3_tick_state.Json.{Json, JsonText}
use uniswapv3_tick_state.Pipeline.{or_fatal}
use uniswapv3_tick_state.Config.{Config, LogConf, RocksDbConf, RedisConf, load_config}

-- The variables of the flags -v, -c and -db.
pub record Flags : Type 0 where
  pub show_version : Bool
  pub config_file : Bytes
  pub db_path : Bytes

abbrev pub default_flags : Flags
default_flags = record { show_version = false; config_file = codes "config.json"; db_path = [] }

-- zap's development logger, or one that buffers, with the size, the time in nanoseconds and the level
-- given to it.
pub data Logger : Type 0 where
  development : Logger
  buffered : ℤ → ℤ → ℕ → Logger

-- a pointer that is followed
abbrev pub deref : {A : Type 0} → Option A → Result A
deref none = panic
deref (some a) = ok a

unfoldable pub init_logger : (Bytes → Result ℕ) → Option LogConf → Result Logger
init_logger parse_level log = bind (deref log) λ l.
    if not l.async
    then ok development
    else bind (or_fatal (parse_level l.level))
        λ level. ok (buffered l.buffer_size (big_int64 (pos (10 ^ 9) *ℤ l.flush_interval)) level)

pub record RocksDbOptions : Type 0 where
  pub enable_log : Bool
  pub block_cache_size : ℕ
  pub write_buffer_size : ℕ
  pub max_write_buffer_number : ℤ

-- What is set of grocksdb's options; none leaves the library's default.
pub record Options : Type 0 where
  pub create_if_missing : Bool
  pub block_cache : Option ℕ
  pub write_buffer_size : Option ℕ
  pub max_write_buffer_number : Option ℤ

unfoldable pub options_of : RocksDbOptions → Options
options_of conf = record {
  create_if_missing = true;
  block_cache = if ltb 0 conf.block_cache_size then some conf.block_cache_size else none;
  write_buffer_size = if ltb 0 conf.write_buffer_size then some conf.write_buffer_size else none;
  max_write_buffer_number =
      if ltb_ℤ (pos 0) conf.max_write_buffer_number
      then some conf.max_write_buffer_number
      else none;
}

-- An open database, and whether its statistics are printed every minute.
pub record RocksDb (S : Type 0) : Type 0 where
  pub db : S
  pub stats : Bool

pub record StartArgs (S : Type 0) : Type 0 where
  pub open_file : Bytes → Result Bytes
  pub decode : Bytes → Result Json
  pub json : JsonText
  pub parse_level : Bytes → Result ℕ
  pub open_db : Options → Bytes → Result S

-- What main hands to the parts: the database, and of the configuration Redis, the node's two addresses
-- and the first height.
pub record Parts (S : Type 0) : Type 0 where
  pub logger : Logger
  pub rocks_db : RocksDb S
  pub redis : RedisConf
  pub http : Bytes
  pub ws : Bytes
  pub from_height : ℕ

pub data Startup (S : Type 0) : Type 0 where
  version_shown : Startup S
  started : Parts S → Startup S

module _ {S : Type 0} (args : StartArgs S) where
  unfoldable pub new_rocks_db : Bytes → RocksDbOptions → Result (RocksDb S)
  unfolding options_of
  new_rocks_db name conf =
      bind (args.open_db (options_of conf) name)
        λ db. ok (record { db = db; stats = conf.enable_log })

  abbrev pub rocks_db_options : RocksDbConf → RocksDbOptions
  rocks_db_options c = record {
    enable_log = c.enable_log;
    block_cache_size = c.block_cache_size;
    write_buffer_size = c.write_buffer_size;
    max_write_buffer_number = c.max_write_buffer_number;
  }

  -- the path of the flag, unless it is empty
  abbrev pub override_path : Bytes → RocksDbConf → RocksDbConf
  override_path [] c = c
  override_path (b ∷ path) c = record c { db_path = b ∷ path }

  unfoldable pub start_parts : Flags → Config → Result (Parts S)
  unfolding init_logger new_rocks_db
  start_parts flags config = bind (init_logger args.parse_level config.log) λ logger.
      bind (deref config.rocks_db) λ conf.
        let c = override_path flags.db_path conf in
        bind (or_fatal (new_rocks_db c.db_path (rocks_db_options c))) λ rocks_db.
          bind (deref config.redis) λ redis. bind (deref config.eth_rpc) λ eth_rpc.
            bind (deref config.block_crawler) λ block_crawler. ok (record {
              logger = logger;
              rocks_db = rocks_db;
              redis = redis;
              http = eth_rpc.http;
              ws = eth_rpc.ws;
              from_height = block_crawler.from_height;
            })

  unfoldable pub start_up : Flags → Result (Startup S)
  unfolding start_parts
  start_up flags =
      if flags.show_version
      then ok version_shown
      else bind
          (or_fatal (load_config args.open_file args.decode args.json.fold_name flags.config_file))
          λ config. bind (start_parts flags config) λ parts. ok (started parts)
