-- ===== src/Startup/Opening.antt =====
-- What the parts are started with.
use uniswapv3_tick_state.Prelude.{
  ℕ, arith, if◌then◌else◌, Option, ℤ, true, negsuc, ltb_ℤ, ltb, suc, zero, ◌≡◌, refl, ap, ◌∙◌,
  Bool-cases, false, none, some, List, [], ◌∷◌, ◌⊎◌, inl, inr, pos, ◌*ℤ◌, ◌^◌, All,
}
use uniswapv3_tick_state.Result.{Result, ok}
use uniswapv3_tick_state.Bytes.{Bytes}
use uniswapv3_tick_state.Types.{big_int64}
use uniswapv3_tick_state.Json.Names.{JsonLaws}
use uniswapv3_tick_state.Config.{
  Config, LogConf, EthRpcConf, BlockCrawlerConf, RedisConf, RocksDbConf, default_config,
  load_config,
}
use uniswapv3_tick_state.Config.Settings.{
  Section, log_section, eth_rpc_section, block_crawler_section, redis_section, rocks_db_section,
  configured, config_json,
}
use uniswapv3_tick_state.Config.Loading.{Fits, load_config_lem}
use uniswapv3_tick_state.Startup.{
  Flags, Logger, development, buffered, init_logger, options_of, Options, StartArgs, Parts, started,
  new_rocks_db, rocks_db_options, override_path, start_parts, start_up,
}

-- Sections of a file that are not null.
abbrev pub NotNull : Section → Type 0
NotNull (log_section none) = ⊥
NotNull (eth_rpc_section none) = ⊥
NotNull (block_crawler_section none) = ⊥
NotNull (redis_section none) = ⊥
NotNull (rocks_db_section none) = ⊥
NotNull _ = Unit

-- A configuration without nil sections.
pub record Sections : Type 0 where
  pub log : LogConf
  pub eth_rpc : EthRpcConf
  pub block_crawler : BlockCrawlerConf
  pub redis : RedisConf
  pub rocks_db : RocksDbConf

abbrev pub config_of : Sections → Config
config_of s = record {
  log = some s.log;
  eth_rpc = some s.eth_rpc;
  block_crawler = some s.block_crawler;
  redis = some s.redis;
  rocks_db = some s.rocks_db;
}

configured-config_of :
    (sections : List Section) (s : Sections)
    → All NotNull sections
    → (t : Sections) × (configured sections (config_of s) ≡ config_of t)
configured-config_of [] s set = (s, refl)
configured-config_of (log_section none ∷ rest) s set = absurd set.0
configured-config_of (eth_rpc_section none ∷ rest) s set = absurd set.0
configured-config_of (block_crawler_section none ∷ rest) s set = absurd set.0
configured-config_of (redis_section none ∷ rest) s set = absurd set.0
configured-config_of (rocks_db_section none ∷ rest) s set = absurd set.0
configured-config_of (log_section (some ss) ∷ rest) s set =
    configured-config_of rest (record s { log = _ }) set.1
configured-config_of (eth_rpc_section (some ss) ∷ rest) s set =
    configured-config_of rest (record s { eth_rpc = _ }) set.1
configured-config_of (block_crawler_section (some ss) ∷ rest) s set =
    configured-config_of rest (record s { block_crawler = _ }) set.1
configured-config_of (redis_section (some ss) ∷ rest) s set =
    configured-config_of rest (record s { redis = _ }) set.1
configured-config_of (rocks_db_section (some ss) ∷ rest) s set =
    configured-config_of rest (record s { rocks_db = _ }) set.1

-- the path of the flag, or else the configured one
abbrev pub path_of : Bytes → Bytes → Bytes
path_of [] configured_path = configured_path
path_of (b ∷ path) configured_path = b ∷ path

override_path_lem :
    {S : Type 0} (args : StartArgs S) (path : Bytes) (c : RocksDbConf)
    → override_path args path c ≡ record c { db_path = path_of path c.db_path }
override_path_lem args [] c = refl
override_path_lem args (b ∷ path) c = refl

abbrev pub CanLog : (Bytes → Result ℕ) → LogConf → Type 0
CanLog parse_level l = (l.async ≡ false) ⊎ ((level : ℕ) × (parse_level l.level ≡ ok level))

-- The logger of a configuration, of the level that its name is known by.
abbrev pub Logs : (Bytes → Result ℕ) → LogConf → Logger → Type 0
Logs parse_level l logger =
    if l.async
    then ((level : ℕ) × (parse_level l.level ≡ ok level)
        × (logger ≡ buffered l.buffer_size (big_int64 (pos (10 ^ 9) *ℤ l.flush_interval)) level))
    else logger ≡ development

init_logger-Logs :
    (parse_level : Bytes → Result ℕ) (l : LogConf)
    → CanLog parse_level l
    → (logger : Logger) × (init_logger parse_level (some l) ≡ ok logger) × Logs parse_level l logger
unfolding init_logger
init_logger-Logs parse_level l (inl sync) = (development, rw sync refl, rw sync refl)
init_logger-Logs parse_level l (inr (level, known)) = elim (Bool-cases l.async) [
  | inl async ↦ (
    buffered l.buffer_size (big_int64 (pos (10 ^ 9) *ℤ l.flush_interval)) level,
    rw (async, known) refl,
    rw async (level, known, refl),
  )
  | inr sync ↦ (development, rw sync refl, rw sync refl)
]

-- What grocksdb is told: to create the database if it is missing, and the settings' sizes that are
-- not 0.
abbrev pub positive : ℕ → Option ℕ
positive zero = none
positive (suc n) = some (suc n)

abbrev pub positive_int : ℤ → Option ℤ
positive_int (pos zero) = none
positive_int (pos (suc n)) = some (pos (suc n))
positive_int (negsuc n) = none

abbrev pub sized : RocksDbConf → Options
sized c = record {
  create_if_missing = true;
  block_cache = positive c.block_cache_size;
  write_buffer_size = positive c.write_buffer_size;
  max_write_buffer_number = positive_int c.max_write_buffer_number;
}

over_zero : (n : ℕ) → (if ltb 0 n then some n else none) ≡ positive n
over_zero zero = refl
over_zero (suc n) = ground arith

over_zero_int : (z : ℤ) → (if ltb_ℤ (pos 0) z then some z else none) ≡ positive_int z
over_zero_int (pos zero) = refl
over_zero_int (pos (suc n)) = ground arith
over_zero_int (negsuc n) = ground arith

options_of-sized :
    {S : Type 0} (args : StartArgs S) (c : RocksDbConf)
    → options_of (rocks_db_options args c) ≡ sized c
unfolding options_of
options_of-sized args c =
    ap
      (λ x. record (sized c) {
        block_cache = x;
        write_buffer_size = if ltb 0 c.write_buffer_size then some c.write_buffer_size else none;
        max_write_buffer_number =
            if ltb_ℤ (pos 0) c.max_write_buffer_number
            then some c.max_write_buffer_number
            else none;
      })
      (over_zero c.block_cache_size)
    ∙ ap
        (λ x. record (sized c) {
          write_buffer_size = x;
          max_write_buffer_number =
              if ltb_ℤ (pos 0) c.max_write_buffer_number
              then some c.max_write_buffer_number
              else none;
        })
        (over_zero c.write_buffer_size)
    ∙ ap (λ x. record (sized c) { max_write_buffer_number = x })
        (over_zero_int c.max_write_buffer_number)

module _ {S : Type 0} (args : StartArgs S) (laws : JsonLaws args.json) where
  abbrev parts_of : Sections → Logger → S → Parts S
  parts_of c logger db = record {
    logger = logger;
    rocks_db = record { db = db; stats = c.rocks_db.enable_log };
    redis = c.redis;
    http = c.eth_rpc.http;
    ws = c.eth_rpc.ws;
    from_height = c.block_crawler.from_height;
  }

  parts_start :
      (flags : Flags) (c : Sections) (logger : Logger) (db : S)
      → init_logger args.parse_level (some c.log) ≡ ok logger
      → args.open_db
          (options_of (rocks_db_options args c.rocks_db))
          (path_of flags.db_path c.rocks_db.db_path)
        ≡ ok db
      → start_parts args flags (config_of c) ≡ ok (parts_of c logger db)
  unfolding start_parts new_rocks_db
  parts_start flags c logger db logs opens =
      rw (logs, override_path_lem args flags.db_path c.rocks_db, opens) refl

  -- Without the flag -v, with a configuration file that can be opened and decoded, whose sections are
  -- none of them null and whose integers fit their fields, with a log level that is known where
  -- logging is not synchronous, and with a database that opens with any options at any path: main
  -- comes to start its parts. They get Redis, the two addresses of the node and the first height that
  -- the file's settings make of the defaults, and zap's development logger, or where logging is
  -- asynchronous one of the settings' buffer size, interval and level. The database is created where it
  -- is missing, with the settings' block cache, write buffer and number of write buffers where these
  -- are positive and the library's defaults else, at the path of the flag -db, or, where that is
  -- empty, at the settings' path; its statistics are printed where the settings say so.
  pub start_up_lem :
      (flags : Flags) (content : Bytes) (sections : List Section)
      → flags.show_version ≡ false
      → args.open_file flags.config_file ≡ ok content
      → args.decode content ≡ ok (config_json sections)
      → All Fits sections
      → All NotNull sections
      → ((l : LogConf)
          → (configured sections default_config).log ≡ some l
          → CanLog args.parse_level l)
      → ((o : Options) (path : Bytes) → (db : S) × (args.open_db o path ≡ ok db))
      → (c : Sections) × (parts : Parts S) × (configured sections default_config ≡ config_of c)
        × (start_up args flags ≡ ok (started parts))
        × Logs args.parse_level c.log parts.logger
        × (parts.redis ≡ c.redis)
        × (parts.http ≡ c.eth_rpc.http)
        × (parts.ws ≡ c.eth_rpc.ws)
        × (parts.from_height ≡ c.block_crawler.from_height)
        × (args.open_db (sized c.rocks_db) (path_of flags.db_path c.rocks_db.db_path)
            ≡ ok parts.rocks_db.db)
        × (parts.rocks_db.stats ≡ c.rocks_db.enable_log)
  unfolding start_up
  start_up_lem flags content sections running opened decoded fit set logs opens =
      let (c, same) = configured-config_of sections _ set in
      let (logger, logging, kind) =
        init_logger-Logs args.parse_level c.log (logs c.log (ap (λ x. x.log) same)) in
      let (db, works) = opens (sized c.rocks_db) (path_of flags.db_path c.rocks_db.db_path) in
      let loaded : load_config args.open_file args.decode args.json.fold_name flags.config_file
          ≡ ok (config_of c) =
        load_config_lem args.json laws args.open_file args.decode flags.config_file content sections
          opened decoded fit
        ∙ ap ok same in
      (
        c,
        parts_of c logger db,
        same,
        rw
            (
              running,
              loaded,
              parts_start flags c logger db logging (
                  ap (λ o. args.open_db o (path_of flags.db_path c.rocks_db.db_path))
                    (options_of-sized args c.rocks_db)
                  ∙ works),
            )
            refl,
        kind,
        refl,
        refl,
        refl,
        refl,
        works,
        refl,
      )
