-- ===== src/Config/Settings.antt =====
-- What a file of settings says, section by section, in any order.
use uniswapv3_tick_state.Prelude.{ℕ, Bool, Option, none, some, List, [], ◌∷◌, ℤ, pos}
use uniswapv3_tick_state.Bytes.{Bytes, codes}
use uniswapv3_tick_state.Json.{Json, null, bool, number, text, object, Members, no_members, member}
use uniswapv3_tick_state.Config.{
  LogConf, new_log_conf, EthRpcConf, new_eth_rpc_conf, BlockCrawlerConf, new_block_crawler_conf,
  RedisConf, new_redis_conf, RocksDbConf, new_rocks_db_conf, Config,
}

module _ {S T : Type 0} (name : S → Bytes) (value : S → Json) (apply : S → T → T) where
  abbrev pub settings : List S → Members
  settings [] = no_members
  settings (s ∷ ss) = member (name s) (value s) (settings ss)

  -- one after the other, so that the last setting of a field counts
  abbrev pub apply_settings : List S → T → T
  apply_settings [] x = x
  apply_settings (s ∷ ss) x = apply_settings ss (apply s x)

abbrev pub or_else : {A : Type 0} → Option A → A → A
or_else none a = a
or_else (some x) a = x

pub data LogSetting : Type 0 where
  set_async : Bool → LogSetting
  set_buffer_size : ℤ → LogSetting
  set_flush_interval : ℤ → LogSetting
  set_level : Bytes → LogSetting

abbrev pub log_conf_name : LogSetting → Bytes
log_conf_name (set_async x) = codes "async"
log_conf_name (set_buffer_size x) = codes "buffer_size"
log_conf_name (set_flush_interval x) = codes "flush_interval"
log_conf_name (set_level x) = codes "level"

abbrev pub log_conf_value : LogSetting → Json
log_conf_value (set_async x) = bool x
log_conf_value (set_buffer_size x) = number x
log_conf_value (set_flush_interval x) = number x
log_conf_value (set_level x) = text x

abbrev pub apply_log_conf : LogSetting → LogConf → LogConf
apply_log_conf (set_async x) c = record c { async = x }
apply_log_conf (set_buffer_size x) c = record c { buffer_size = x }
apply_log_conf (set_flush_interval x) c = record c { flush_interval = x }
apply_log_conf (set_level x) c = record c { level = x }

abbrev pub log_conf_json : List LogSetting → Json
log_conf_json ss = object (settings log_conf_name log_conf_value apply_log_conf ss)

abbrev pub over_log_conf : List LogSetting → LogConf → LogConf
over_log_conf = apply_settings log_conf_name log_conf_value apply_log_conf

pub data EthRpcSetting : Type 0 where
  set_http : Bytes → EthRpcSetting
  set_archive : Bytes → EthRpcSetting
  set_ws : Bytes → EthRpcSetting

abbrev pub eth_rpc_conf_name : EthRpcSetting → Bytes
eth_rpc_conf_name (set_http x) = codes "http"
eth_rpc_conf_name (set_archive x) = codes "archive"
eth_rpc_conf_name (set_ws x) = codes "ws"

abbrev pub eth_rpc_conf_value : EthRpcSetting → Json
eth_rpc_conf_value (set_http x) = text x
eth_rpc_conf_value (set_archive x) = text x
eth_rpc_conf_value (set_ws x) = text x

abbrev pub apply_eth_rpc_conf : EthRpcSetting → EthRpcConf → EthRpcConf
apply_eth_rpc_conf (set_http x) c = record c { http = x }
apply_eth_rpc_conf (set_archive x) c = record c { archive = x }
apply_eth_rpc_conf (set_ws x) c = record c { ws = x }

abbrev pub eth_rpc_conf_json : List EthRpcSetting → Json
eth_rpc_conf_json ss = object (settings eth_rpc_conf_name eth_rpc_conf_value apply_eth_rpc_conf ss)

abbrev pub over_eth_rpc_conf : List EthRpcSetting → EthRpcConf → EthRpcConf
over_eth_rpc_conf = apply_settings eth_rpc_conf_name eth_rpc_conf_value apply_eth_rpc_conf

pub data BlockCrawlerSetting : Type 0 where
  set_pool_size : ℤ → BlockCrawlerSetting
  set_from_height : ℕ → BlockCrawlerSetting

abbrev pub block_crawler_conf_name : BlockCrawlerSetting → Bytes
block_crawler_conf_name (set_pool_size x) = codes "pool_size"
block_crawler_conf_name (set_from_height x) = codes "from_height"

abbrev pub block_crawler_conf_value : BlockCrawlerSetting → Json
block_crawler_conf_value (set_pool_size x) = number x
block_crawler_conf_value (set_from_height x) = number (pos x)

abbrev pub apply_block_crawler_conf : BlockCrawlerSetting → BlockCrawlerConf → BlockCrawlerConf
apply_block_crawler_conf (set_pool_size x) c = record c { pool_size = x }
apply_block_crawler_conf (set_from_height x) c = record c { from_height = x }

abbrev pub block_crawler_conf_json : List BlockCrawlerSetting → Json
block_crawler_conf_json ss =
    object (settings block_crawler_conf_name block_crawler_conf_value apply_block_crawler_conf ss)

abbrev pub over_block_crawler_conf : List BlockCrawlerSetting → BlockCrawlerConf → BlockCrawlerConf
over_block_crawler_conf =
    apply_settings block_crawler_conf_name block_crawler_conf_value apply_block_crawler_conf

pub data RedisSetting : Type 0 where
  set_addr : Bytes → RedisSetting
  set_username : Bytes → RedisSetting
  set_password : Bytes → RedisSetting

abbrev pub redis_conf_name : RedisSetting → Bytes
redis_conf_name (set_addr x) = codes "addr"
redis_conf_name (set_username x) = codes "username"
redis_conf_name (set_password x) = codes "password"

abbrev pub redis_conf_value : RedisSetting → Json
redis_conf_value (set_addr x) = text x
redis_conf_value (set_username x) = text x
redis_conf_value (set_password x) = text x

abbrev pub apply_redis_conf : RedisSetting → RedisConf → RedisConf
apply_redis_conf (set_addr x) c = record c { addr = x }
apply_redis_conf (set_username x) c = record c { username = x }
apply_redis_conf (set_password x) c = record c { password = x }

abbrev pub redis_conf_json : List RedisSetting → Json
redis_conf_json ss = object (settings redis_conf_name redis_conf_value apply_redis_conf ss)

abbrev pub over_redis_conf : List RedisSetting → RedisConf → RedisConf
over_redis_conf = apply_settings redis_conf_name redis_conf_value apply_redis_conf

pub data RocksDbSetting : Type 0 where
  set_enable_log : Bool → RocksDbSetting
  set_block_cache_size : ℕ → RocksDbSetting
  set_write_buffer_size : ℕ → RocksDbSetting
  set_max_write_buffer_number : ℤ → RocksDbSetting
  set_db_path : Bytes → RocksDbSetting

abbrev pub rocks_db_conf_name : RocksDbSetting → Bytes
rocks_db_conf_name (set_enable_log x) = codes "enable_log"
rocks_db_conf_name (set_block_cache_size x) = codes "block_cache_size"
rocks_db_conf_name (set_write_buffer_size x) = codes "write_buffer_size"
rocks_db_conf_name (set_max_write_buffer_number x) = codes "max_write_buffer_number"
rocks_db_conf_name (set_db_path x) = codes "db_path"

abbrev pub rocks_db_conf_value : RocksDbSetting → Json
rocks_db_conf_value (set_enable_log x) = bool x
rocks_db_conf_value (set_block_cache_size x) = number (pos x)
rocks_db_conf_value (set_write_buffer_size x) = number (pos x)
rocks_db_conf_value (set_max_write_buffer_number x) = number x
rocks_db_conf_value (set_db_path x) = text x

abbrev pub apply_rocks_db_conf : RocksDbSetting → RocksDbConf → RocksDbConf
apply_rocks_db_conf (set_enable_log x) c = record c { enable_log = x }
apply_rocks_db_conf (set_block_cache_size x) c = record c { block_cache_size = x }
apply_rocks_db_conf (set_write_buffer_size x) c = record c { write_buffer_size = x }
apply_rocks_db_conf (set_max_write_buffer_number x) c = record c { max_write_buffer_number = x }
apply_rocks_db_conf (set_db_path x) c = record c { db_path = x }

abbrev pub rocks_db_conf_json : List RocksDbSetting → Json
rocks_db_conf_json ss =
    object (settings rocks_db_conf_name rocks_db_conf_value apply_rocks_db_conf ss)

abbrev pub over_rocks_db_conf : List RocksDbSetting → RocksDbConf → RocksDbConf
over_rocks_db_conf = apply_settings rocks_db_conf_name rocks_db_conf_value apply_rocks_db_conf

-- none is null
pub data Section : Type 0 where
  log_section : Option (List LogSetting) → Section
  eth_rpc_section : Option (List EthRpcSetting) → Section
  block_crawler_section : Option (List BlockCrawlerSetting) → Section
  redis_section : Option (List RedisSetting) → Section
  rocks_db_section : Option (List RocksDbSetting) → Section

abbrev pub section_name : Section → Bytes
section_name (log_section ss) = codes "log"
section_name (eth_rpc_section ss) = codes "eth_rpc"
section_name (block_crawler_section ss) = codes "block_crawler"
section_name (redis_section ss) = codes "redis"
section_name (rocks_db_section ss) = codes "rocksdb"

abbrev pub section_value : Section → Json
section_value (log_section none) = null
section_value (log_section (some ss)) = log_conf_json ss
section_value (eth_rpc_section none) = null
section_value (eth_rpc_section (some ss)) = eth_rpc_conf_json ss
section_value (block_crawler_section none) = null
section_value (block_crawler_section (some ss)) = block_crawler_conf_json ss
section_value (redis_section none) = null
section_value (redis_section (some ss)) = redis_conf_json ss
section_value (rocks_db_section none) = null
section_value (rocks_db_section (some ss)) = rocks_db_conf_json ss

abbrev pub apply_section : Section → Config → Config
apply_section (log_section none) c = record c { log = none }
apply_section (log_section (some ss)) c = record c {
  log = some (over_log_conf ss (or_else c.log new_log_conf));
}
apply_section (eth_rpc_section none) c = record c { eth_rpc = none }
apply_section (eth_rpc_section (some ss)) c = record c {
  eth_rpc = some (over_eth_rpc_conf ss (or_else c.eth_rpc new_eth_rpc_conf));
}
apply_section (block_crawler_section none) c = record c { block_crawler = none }
apply_section (block_crawler_section (some ss)) c = record c {
  block_crawler =
      some (over_block_crawler_conf ss (or_else c.block_crawler new_block_crawler_conf));
}
apply_section (redis_section none) c = record c { redis = none }
apply_section (redis_section (some ss)) c = record c {
  redis = some (over_redis_conf ss (or_else c.redis new_redis_conf));
}
apply_section (rocks_db_section none) c = record c { rocks_db = none }
apply_section (rocks_db_section (some ss)) c = record c {
  rocks_db = some (over_rocks_db_conf ss (or_else c.rocks_db new_rocks_db_conf));
}

-- what the settings make of the defaults
abbrev pub configured : List Section → Config → Config
configured = apply_settings section_name section_value apply_section

abbrev pub config_json : List Section → Json
config_json sections = object (settings section_name section_value apply_section sections)
