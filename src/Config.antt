-- ===== src/Config.antt =====
-- config.go: the configuration, its defaults, and how a file is read over them.
pub mod Settings
pub mod Reading
pub mod Loading
use uniswapv3_tick_state.Prelude.{ℕ, ◌*◌, Bool, true, false, Option, some, List, [], ◌∷◌, ℤ, pos}
use uniswapv3_tick_state.Result.{Result, ok, bind}
use uniswapv3_tick_state.Bytes.{Bytes, codes}
use uniswapv3_tick_state.Json.{
  Json, Field, read_text, read_bool, read_int, read_uint64, read_pointer, read_struct,
}

pub record LogConf : Type 0 where
  pub async : Bool
  pub buffer_size : ℤ
  pub flush_interval : ℤ
  pub level : Bytes

pub record EthRpcConf : Type 0 where
  pub http : Bytes
  pub archive : Bytes
  pub ws : Bytes

pub record BlockCrawlerConf : Type 0 where
  pub pool_size : ℤ
  pub from_height : ℕ

pub record RedisConf : Type 0 where
  pub addr : Bytes
  pub username : Bytes
  pub password : Bytes

pub record RocksDbConf : Type 0 where
  pub enable_log : Bool
  pub block_cache_size : ℕ
  pub write_buffer_size : ℕ
  pub max_write_buffer_number : ℤ
  pub db_path : Bytes

-- The sections are pointers, which may be nil.
pub record Config : Type 0 where
  pub log : Option LogConf
  pub eth_rpc : Option EthRpcConf
  pub block_crawler : Option BlockCrawlerConf
  pub redis : Option RedisConf
  pub rocks_db : Option RocksDbConf

abbrev pub default_config : Config
default_config = record {
  log = some (record {
    async = false;
    buffer_size = pos 1000000;
    flush_interval = pos 1;
    level = codes "info";
  });
  eth_rpc = some (record {
    http = codes "https://bsc-dataseed.binance.org/";
    archive = codes "https://bsc-dataseed.binance.org/";
    ws = codes "ws://bsc-dataseed.binance.org/";
  });
  block_crawler = some (record { pool_size = pos 1; from_height = 0 });
  redis = some (record { addr = codes "localhost:6379"; username = []; password = [] });
  rocks_db = some (record {
    enable_log = true;
    block_cache_size = 1024 * 1024 * 1024 * 1;
    write_buffer_size = 1024 * 1024 * 128;
    max_write_buffer_number = pos 2;
    db_path = codes ".db";
  });
}

-- the values of new(T)
abbrev pub new_log_conf : LogConf
new_log_conf = record { async = false; buffer_size = pos 0; flush_interval = pos 0; level = [] }

abbrev pub new_eth_rpc_conf : EthRpcConf
new_eth_rpc_conf = record { http = []; archive = []; ws = [] }

abbrev pub new_block_crawler_conf : BlockCrawlerConf
new_block_crawler_conf = record { pool_size = pos 0; from_height = 0 }

abbrev pub new_redis_conf : RedisConf
new_redis_conf = record { addr = []; username = []; password = [] }

abbrev pub new_rocks_db_conf : RocksDbConf
new_rocks_db_conf = record {
  enable_log = false;
  block_cache_size = 0;
  write_buffer_size = 0;
  max_write_buffer_number = pos 0;
  db_path = [];
}

abbrev pub log_conf_fields : List (Field LogConf)
log_conf_fields =
    (record {
      name = codes "async";
      set = λ v c. bind (read_bool v c.async) (λ x. ok (record c { async = x }));
    })
    ∷ (record {
      name = codes "buffer_size";
      set = λ v c. bind (read_int 63 v c.buffer_size) (λ x. ok (record c { buffer_size = x }));
    })
    ∷ (record {
      name = codes "flush_interval";
      set =
          λ v c. bind (read_int 63 v c.flush_interval) (λ x. ok (record c { flush_interval = x }));
    })
    ∷ (record {
      name = codes "level";
      set = λ v c. bind (read_text v c.level) (λ x. ok (record c { level = x }));
    })
    ∷ []

abbrev pub eth_rpc_conf_fields : List (Field EthRpcConf)
eth_rpc_conf_fields =
    (record {
      name = codes "http";
      set = λ v c. bind (read_text v c.http) (λ x. ok (record c { http = x }));
    })
    ∷ (record {
      name = codes "archive";
      set = λ v c. bind (read_text v c.archive) (λ x. ok (record c { archive = x }));
    })
    ∷ (record {
      name = codes "ws";
      set = λ v c. bind (read_text v c.ws) (λ x. ok (record c { ws = x }));
    })
    ∷ []

abbrev pub block_crawler_conf_fields : List (Field BlockCrawlerConf)
block_crawler_conf_fields =
    (record {
      name = codes "pool_size";
      set = λ v c. bind (read_int 63 v c.pool_size) (λ x. ok (record c { pool_size = x }));
    })
    ∷ (record {
      name = codes "from_height";
      set = λ v c. bind (read_uint64 v c.from_height) (λ x. ok (record c { from_height = x }));
    })
    ∷ []

abbrev pub redis_conf_fields : List (Field RedisConf)
redis_conf_fields =
    (record {
      name = codes "addr";
      set = λ v c. bind (read_text v c.addr) (λ x. ok (record c { addr = x }));
    })
    ∷ (record {
      name = codes "username";
      set = λ v c. bind (read_text v c.username) (λ x. ok (record c { username = x }));
    })
    ∷ (record {
      name = codes "password";
      set = λ v c. bind (read_text v c.password) (λ x. ok (record c { password = x }));
    })
    ∷ []

abbrev pub rocks_db_conf_fields : List (Field RocksDbConf)
rocks_db_conf_fields =
    (record {
      name = codes "enable_log";
      set = λ v c. bind (read_bool v c.enable_log) (λ x. ok (record c { enable_log = x }));
    })
    ∷ (record {
      name = codes "block_cache_size";
      set = λ v c.
          bind (read_uint64 v c.block_cache_size) (λ x. ok (record c { block_cache_size = x }));
    })
    ∷ (record {
      name = codes "write_buffer_size";
      set = λ v c.
          bind (read_uint64 v c.write_buffer_size) (λ x. ok (record c { write_buffer_size = x }));
    })
    ∷ (record {
      name = codes "max_write_buffer_number";
      set = λ v c.
          bind (read_int 63 v c.max_write_buffer_number)
            (λ x. ok (record c { max_write_buffer_number = x }));
    })
    ∷ (record {
      name = codes "db_path";
      set = λ v c. bind (read_text v c.db_path) (λ x. ok (record c { db_path = x }));
    })
    ∷ []

module _ (fold_name : Bytes → Bytes) where
  abbrev pub config_fields : List (Field Config)
  config_fields =
      (record {
        name = codes "log";
        set = λ v c.
            bind (read_pointer (read_struct fold_name log_conf_fields) new_log_conf v c.log)
              (λ x. ok (record c { log = x }));
      })
      ∷ (record {
        name = codes "eth_rpc";
        set = λ v c.
            bind
              (read_pointer (read_struct fold_name eth_rpc_conf_fields) new_eth_rpc_conf v
                c.eth_rpc)
              (λ x. ok (record c { eth_rpc = x }));
      })
      ∷ (record {
        name = codes "block_crawler";
        set = λ v c.
            bind
              (read_pointer (read_struct fold_name block_crawler_conf_fields) new_block_crawler_conf
                v c.block_crawler)
              (λ x. ok (record c { block_crawler = x }));
      })
      ∷ (record {
        name = codes "redis";
        set = λ v c.
            bind (read_pointer (read_struct fold_name redis_conf_fields) new_redis_conf v c.redis)
              (λ x. ok (record c { redis = x }));
      })
      ∷ (record {
        name = codes "rocksdb";
        set = λ v c.
            bind
              (read_pointer (read_struct fold_name rocks_db_conf_fields) new_rocks_db_conf v
                c.rocks_db)
              (λ x. ok (record c { rocks_db = x }));
      })
      ∷ []

-- A file is opened by its name and read, as far as its first document goes.
module _ (open_file : Bytes → Result Bytes) (decode : Bytes → Result Json)
    (fold_name : Bytes → Bytes) where
  -- the configuration that is then in G
  unfoldable pub load_config : Bytes → Result Config
  load_config name = bind (open_file name) λ content.
      bind (decode content) λ v. read_struct fold_name (config_fields fold_name) v default_config
