-- ===== src/RocksDb.antt =====
-- rocks_db.go: the operations of `RocksDB` over the engine.
use uniswapv3_tick_state.Prelude.{Option, none, some, List, [], ◌∷◌, if◌then◌else◌}
use uniswapv3_tick_state.Result.{Result, ok, err, bind, Action}
use uniswapv3_tick_state.Bytes.{Bytes, bytes_ltb}
use uniswapv3_tick_state.Engine.{Engine, Cursor, entry, end, BatchOp}

-- `bytesEntry` with its methods K and V
pub record BytesEntry : Type 0 where
  pub key : Bytes
  pub val : Bytes

-- The loop of `GetRange`: it breaks at the first key above `to`, which is read as an inclusive
-- bound, and asks the iterator for its error after the loop.
unfoldable pub collect_range : Bytes → Cursor → Result (List BytesEntry)
collect_range to (end none) = ok []
collect_range to (end (some e)) = err e
collect_range to (entry k v rest) =
    let more = collect_range to rest in
    if bytes_ltb to k
    then ok []
    else bind more (λ entries. ok (record { key = k; val = v } ∷ entries))

module _ (e : Engine) where
  unfoldable pub get : Bytes → Action e.State (Option Bytes)
  get key s = (e.get s key, s)

  unfoldable pub set : Bytes → Bytes → Action e.State (Unit {0})
  set key value = e.put key value

  unfoldable pub del : Bytes → Action e.State (Unit {0})
  del key = e.delete key

  unfoldable pub get_range : Bytes → Bytes → Action e.State (List BytesEntry)
  unfolding collect_range
  get_range from to s = (collect_range to (e.seek s from), s)

  unfoldable pub write_batch : List BatchOp → Action e.State (Unit {0})
  write_batch batch = e.write batch
