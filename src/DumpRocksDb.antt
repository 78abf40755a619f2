-- ===== src/DumpRocksDb.antt =====
-- cmd/dump_rocks_db/main.go: a database as text, an entry on a line, in hexadecimal.
pub mod Text
use uniswapv3_tick_state.Prelude.{
  ℕ, ◌+◌, ◌-◌, ◌/◌, ◌%◌, Bool, false, none, List, [], ◌∷◌, ◌++◌, ltb, if◌then◌else◌,
}
use uniswapv3_tick_state.Result.{Result, bind, ok}
use uniswapv3_tick_state.Bytes.{Bytes}
use uniswapv3_tick_state.Engine.{Engine, Cursor, entry, end}
use uniswapv3_tick_state.Startup.{Options}

-- hex.EncodeToString
abbrev pub hex_digit : ℕ → ℕ
hex_digit n = if ltb n 10 then b'0' + n else b'a' + (n - 10)

abbrev pub encode_to_string : Bytes → Bytes
encode_to_string [] = []
encode_to_string (b ∷ bs) = hex_digit (b / 16) ∷ hex_digit (b % 16) ∷ encode_to_string bs

-- The loop over the iterator; why it ends is not asked.
unfoldable pub dump_entries : Cursor → Bytes
dump_entries (end e) = []
dump_entries (entry key val rest) =
    encode_to_string key ++ b':' ∷ (encode_to_string val ++ b'\n' ∷ dump_entries rest)

-- SeekToFirst is a seek of the empty key, the least one.
unfoldable pub dump : (e : Engine) → e.State → Bytes
unfolding dump_entries
dump e s = dump_entries (e.seek s [])

-- `main`, which does not create a database that is missing
unfoldable pub dump_rocks_db :
    (e : Engine) → (Options → Bytes → Result e.State) → Bytes → Result Bytes
unfolding dump
dump_rocks_db e open_db db_path =
    bind
      (open_db
        (record {
          create_if_missing = false;
          block_cache = none;
          write_buffer_size = none;
          max_write_buffer_number = none;
        })
        db_path)
      (λ s. ok (dump e s))
