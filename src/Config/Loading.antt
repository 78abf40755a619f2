-- ===== src/Config/Loading.antt =====
-- A configuration file of settings, read over the defaults.
use uniswapv3_tick_state.Prelude.{◌^◌, ◌≡◌, refl, ap, true, none, some, List, ltb, All}
use uniswapv3_tick_state.Result.{Result, ok, bind}
use uniswapv3_tick_state.Bytes.{Bytes, bytes_eqb}
use uniswapv3_tick_state.Json.{Json, JsonText, fits_int, set_member}
use uniswapv3_tick_state.Json.Names.{JsonLaws, is_ascii, to_lower}
use uniswapv3_tick_state.Config.{
  LogConf, new_log_conf, log_conf_fields, EthRpcConf, new_eth_rpc_conf, eth_rpc_conf_fields,
  BlockCrawlerConf, new_block_crawler_conf, block_crawler_conf_fields, RedisConf, new_redis_conf,
  redis_conf_fields, RocksDbConf, new_rocks_db_conf, rocks_db_conf_fields, Config, default_config,
  config_fields, load_config,
}
use uniswapv3_tick_state.Config.Reading.{read_settings, read_section}
use uniswapv3_tick_state.Config.Settings.{
  section_name, section_value, apply_section, Section, configured, config_json, LogSetting,
  log_conf_name, log_conf_value, apply_log_conf, log_section, set_async, set_buffer_size,
  set_flush_interval, set_level, EthRpcSetting, eth_rpc_conf_name, eth_rpc_conf_value,
  apply_eth_rpc_conf, eth_rpc_section, set_http, set_archive, set_ws, BlockCrawlerSetting,
  block_crawler_conf_name, block_crawler_conf_value, apply_block_crawler_conf,
  block_crawler_section, set_pool_size, set_from_height, RedisSetting, redis_conf_name,
  redis_conf_value, apply_redis_conf, redis_section, set_addr, set_username, set_password,
  RocksDbSetting, rocks_db_conf_name, rocks_db_conf_value, apply_rocks_db_conf, rocks_db_section,
  set_enable_log, set_block_cache_size, set_write_buffer_size, set_max_write_buffer_number,
  set_db_path,
}

abbrev pub LogFits : LogSetting → Type 0
LogFits (set_buffer_size x) = fits_int 63 x ≡ true
LogFits (set_flush_interval x) = fits_int 63 x ≡ true
LogFits _ = Unit

log_conf_plain : (s : LogSetting) → is_ascii (log_conf_name s) ≡ true
log_conf_plain (set_async x) = refl
log_conf_plain (set_buffer_size x) = refl
log_conf_plain (set_flush_interval x) = refl
log_conf_plain (set_level x) = refl

log_conf_sets :
    (s : LogSetting) (c : LogConf)
    → LogFits s
    → set_member to_lower log_conf_fields (log_conf_name s) (log_conf_value s) c
      ≡ ok (apply_log_conf s c)
unfolding bytes_eqb
log_conf_sets (set_async x) c fit = refl
log_conf_sets (set_buffer_size x) c fit = rw fit refl
log_conf_sets (set_flush_interval x) c fit = rw fit refl
log_conf_sets (set_level x) c fit = refl

abbrev pub EthRpcFits : EthRpcSetting → Type 0
EthRpcFits _ = Unit

eth_rpc_conf_plain : (s : EthRpcSetting) → is_ascii (eth_rpc_conf_name s) ≡ true
eth_rpc_conf_plain (set_http x) = refl
eth_rpc_conf_plain (set_archive x) = refl
eth_rpc_conf_plain (set_ws x) = refl

eth_rpc_conf_sets :
    (s : EthRpcSetting) (c : EthRpcConf)
    → EthRpcFits s
    → set_member to_lower eth_rpc_conf_fields (eth_rpc_conf_name s) (eth_rpc_conf_value s) c
      ≡ ok (apply_eth_rpc_conf s c)
unfolding bytes_eqb
eth_rpc_conf_sets (set_http x) c fit = refl
eth_rpc_conf_sets (set_archive x) c fit = refl
eth_rpc_conf_sets (set_ws x) c fit = refl

abbrev pub BlockCrawlerFits : BlockCrawlerSetting → Type 0
BlockCrawlerFits (set_pool_size x) = fits_int 63 x ≡ true
BlockCrawlerFits (set_from_height x) = ltb x (2 ^ 64) ≡ true

block_crawler_conf_plain : (s : BlockCrawlerSetting) → is_ascii (block_crawler_conf_name s) ≡ true
block_crawler_conf_plain (set_pool_size x) = refl
block_crawler_conf_plain (set_from_height x) = refl

block_crawler_conf_sets :
    (s : BlockCrawlerSetting) (c : BlockCrawlerConf)
    → BlockCrawlerFits s
    → set_member to_lower block_crawler_conf_fields
        (block_crawler_conf_name s)
        (block_crawler_conf_value s)
        c
      ≡ ok (apply_block_crawler_conf s c)
unfolding bytes_eqb
block_crawler_conf_sets (set_pool_size x) c fit = rw fit refl
block_crawler_conf_sets (set_from_height x) c fit = rw fit refl

abbrev pub RedisFits : RedisSetting → Type 0
RedisFits _ = Unit

redis_conf_plain : (s : RedisSetting) → is_ascii (redis_conf_name s) ≡ true
redis_conf_plain (set_addr x) = refl
redis_conf_plain (set_username x) = refl
redis_conf_plain (set_password x) = refl

redis_conf_sets :
    (s : RedisSetting) (c : RedisConf)
    → RedisFits s
    → set_member to_lower redis_conf_fields (redis_conf_name s) (redis_conf_value s) c
      ≡ ok (apply_redis_conf s c)
unfolding bytes_eqb
redis_conf_sets (set_addr x) c fit = refl
redis_conf_sets (set_username x) c fit = refl
redis_conf_sets (set_password x) c fit = refl

abbrev pub RocksDbFits : RocksDbSetting → Type 0
RocksDbFits (set_block_cache_size x) = ltb x (2 ^ 64) ≡ true
RocksDbFits (set_write_buffer_size x) = ltb x (2 ^ 64) ≡ true
RocksDbFits (set_max_write_buffer_number x) = fits_int 63 x ≡ true
RocksDbFits _ = Unit

rocks_db_conf_plain : (s : RocksDbSetting) → is_ascii (rocks_db_conf_name s) ≡ true
rocks_db_conf_plain (set_enable_log x) = refl
rocks_db_conf_plain (set_block_cache_size x) = refl
rocks_db_conf_plain (set_write_buffer_size x) = refl
rocks_db_conf_plain (set_max_write_buffer_number x) = refl
rocks_db_conf_plain (set_db_path x) = refl

rocks_db_conf_sets :
    (s : RocksDbSetting) (c : RocksDbConf)
    → RocksDbFits s
    → set_member to_lower rocks_db_conf_fields (rocks_db_conf_name s) (rocks_db_conf_value s) c
      ≡ ok (apply_rocks_db_conf s c)
unfolding bytes_eqb
rocks_db_conf_sets (set_enable_log x) c fit = refl
rocks_db_conf_sets (set_block_cache_size x) c fit = rw fit refl
rocks_db_conf_sets (set_write_buffer_size x) c fit = rw fit refl
rocks_db_conf_sets (set_max_write_buffer_number x) c fit = rw fit refl
rocks_db_conf_sets (set_db_path x) c fit = refl

-- Numbers fit the fields.
abbrev pub Fits : Section → Type 0
Fits (log_section none) = Unit
Fits (log_section (some ss)) = All LogFits ss
Fits (eth_rpc_section none) = Unit
Fits (eth_rpc_section (some ss)) = All EthRpcFits ss
Fits (block_crawler_section none) = Unit
Fits (block_crawler_section (some ss)) = All BlockCrawlerFits ss
Fits (redis_section none) = Unit
Fits (redis_section (some ss)) = All RedisFits ss
Fits (rocks_db_section none) = Unit
Fits (rocks_db_section (some ss)) = All RocksDbFits ss

section_plain : (s : Section) → is_ascii (section_name s) ≡ true
section_plain (log_section ss) = refl
section_plain (eth_rpc_section ss) = refl
section_plain (block_crawler_section ss) = refl
section_plain (redis_section ss) = refl
section_plain (rocks_db_section ss) = refl

module _ (json : JsonText) (laws : JsonLaws json) where
  section_sets :
      (s : Section) (c : Config)
      → Fits s
      → set_member to_lower (config_fields json.fold_name) (section_name s) (section_value s) c
        ≡ ok (apply_section s c)
  unfolding bytes_eqb
  section_sets (log_section none) c fit = refl
  section_sets (log_section (some ss)) c fit =
      ap (λ r. bind r (λ x. ok (record c { log = x })))
        (read_section log_conf_name log_conf_value apply_log_conf log_conf_fields LogFits
          log_conf_plain json.fold_name new_log_conf laws.fold_name_ascii refl log_conf_sets ss
          c.log fit)
  section_sets (eth_rpc_section none) c fit = refl
  section_sets (eth_rpc_section (some ss)) c fit =
      ap (λ r. bind r (λ x. ok (record c { eth_rpc = x })))
        (read_section eth_rpc_conf_name eth_rpc_conf_value apply_eth_rpc_conf eth_rpc_conf_fields
          EthRpcFits eth_rpc_conf_plain json.fold_name new_eth_rpc_conf laws.fold_name_ascii refl
          eth_rpc_conf_sets ss c.eth_rpc fit)
  section_sets (block_crawler_section none) c fit = refl
  section_sets (block_crawler_section (some ss)) c fit =
      ap (λ r. bind r (λ x. ok (record c { block_crawler = x })))
        (read_section block_crawler_conf_name block_crawler_conf_value apply_block_crawler_conf
          block_crawler_conf_fields BlockCrawlerFits block_crawler_conf_plain json.fold_name
          new_block_crawler_conf laws.fold_name_ascii refl block_crawler_conf_sets ss
          c.block_crawler fit)
  section_sets (redis_section none) c fit = refl
  section_sets (redis_section (some ss)) c fit =
      ap (λ r. bind r (λ x. ok (record c { redis = x })))
        (read_section redis_conf_name redis_conf_value apply_redis_conf redis_conf_fields RedisFits
          redis_conf_plain json.fold_name new_redis_conf laws.fold_name_ascii refl redis_conf_sets
          ss c.redis fit)
  section_sets (rocks_db_section none) c fit = refl
  section_sets (rocks_db_section (some ss)) c fit =
      ap (λ r. bind r (λ x. ok (record c { rocks_db = x })))
        (read_section rocks_db_conf_name rocks_db_conf_value apply_rocks_db_conf
          rocks_db_conf_fields RocksDbFits rocks_db_conf_plain json.fold_name new_rocks_db_conf
          laws.fold_name_ascii refl rocks_db_conf_sets ss c.rocks_db fit)

  -- A file that can be opened and decoded, whose document has sections and in them settings, in any
  -- order and also more than once, with integers that fit their fields: LoadConfig gives the defaults
  -- with just these settings changed, the last of each counting, and a section nil where it is null
  -- in the file; settings after a null begin from zero values. encoding/json keeps its documented laws.
  pub load_config_lem :
      (open_file : Bytes → Result Bytes) (decode : Bytes → Result Json) (name content : Bytes)
      (sections : List Section)
      → open_file name ≡ ok content
      → decode content ≡ ok (config_json sections)
      → All Fits sections
      → load_config open_file decode json.fold_name name ≡ ok (configured sections default_config)
  unfolding load_config
  load_config_lem open_file decode name content sections opened decoded fit =
      rw (opened, decoded)
        (read_settings section_name section_value apply_section (config_fields json.fold_name) Fits
          section_plain json.fold_name laws.fold_name_ascii refl section_sets sections
          default_config fit)
