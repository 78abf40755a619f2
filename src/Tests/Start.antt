-- ===== src/Tests/Start.antt =====
-- A start with a configuration file that sets the level of the log, the first height and the path of
-- the database.
use uniswapv3_tick_state.Prelude.{◌≡◌, refl, true, some, List, [], ◌∷◌, inr}
use uniswapv3_tick_state.Result.{ok}
use uniswapv3_tick_state.Bytes.{Bytes, codes}
use uniswapv3_tick_state.Samples.Documents.{documents, documents-JsonLaws}
use uniswapv3_tick_state.Config.{default_config, load_config}
use uniswapv3_tick_state.Config.Settings.{
  Section, log_section, block_crawler_section, rocks_db_section, set_async, set_level,
  set_from_height, set_db_path, set_block_cache_size, configured, config_json,
}
use uniswapv3_tick_state.Config.Loading.{load_config_lem}
use uniswapv3_tick_state.Startup.{default_flags, Options, StartArgs, Parts, started, start_up}
use uniswapv3_tick_state.Startup.Opening.{Sections, config_of, path_of, Logs, sized, start_up_lem}

abbrev sections : List Section
sections =
    log_section (some (set_async true ∷ set_level (codes "info") ∷ []))
    ∷ block_crawler_section (some (set_from_height 500 ∷ []))
    ∷ rocks_db_section (some (set_db_path (codes "/data") ∷ set_block_cache_size 0 ∷ []))
    ∷ []

abbrev args : StartArgs (Options × Bytes)
args = record {
  open_file = λ name. ok name;
  decode = λ content. ok (config_json sections);
  json = documents;
  parse_level = λ level. ok 0;
  open_db = λ options path. ok (options, path);
}

start_up_lem_example :
    (c : Sections) × (parts : Parts (Options × Bytes)) × (configured sections default_config
      ≡ config_of c)
    × (start_up args default_flags ≡ ok (started parts))
    × Logs args.parse_level c.log parts.logger
    × (parts.redis ≡ c.redis)
    × (parts.http ≡ c.eth_rpc.http)
    × (parts.ws ≡ c.eth_rpc.ws)
    × (parts.from_height ≡ c.block_crawler.from_height)
    × (ok (sized c.rocks_db, path_of [] c.rocks_db.db_path) ≡ ok parts.rocks_db.db)
    × (parts.rocks_db.stats ≡ c.rocks_db.enable_log)
start_up_lem_example =
    start_up_lem args documents-JsonLaws default_flags (codes "config.json") sections refl refl refl
      ((tt, (tt, tt)), ((refl, tt), ((tt, (refl, tt)), tt))) (tt, (tt, (tt, tt)))
      (λ l is. inr (0, refl)) (λ o path. ((o, path), refl))

load_config_lem_example :
    load_config args.open_file args.decode documents.fold_name (codes "config.json")
    ≡ ok (configured sections default_config)
load_config_lem_example =
    load_config_lem documents documents-JsonLaws args.open_file args.decode (codes "config.json")
      (codes "config.json") sections refl refl
      ((tt, (tt, tt)), ((refl, tt), ((tt, (refl, tt)), tt)))
