-- ===== src/Engine.antt =====
-- What rocks_db.go and db_wrap.go use of `grocksdb`, the binding of RocksDB: an ordered map from
-- byte strings to byte strings. The library is a parameter of the model.
pub mod Laws
pub mod Cursors
use uniswapv3_tick_state.Prelude.{Option, List}
use uniswapv3_tick_state.Result.{Error, Result, Action}
use uniswapv3_tick_state.Bytes.{Bytes}

-- An iterator after Seek: what Valid, Key, Value and Next show, and what Err answers at the end.
-- While an entry is shown, Err answers nil.
pub data Cursor : Type 0 where
  entry : Bytes → Bytes → Cursor → Cursor
  end : Option Error → Cursor

-- What a WriteBatch collects; `delete_range` takes its first key and leaves its second.
pub data BatchOp : Type 0 where
  put : Bytes → Bytes → BatchOp
  delete : Bytes → BatchOp
  delete_range : Bytes → Bytes → BatchOp

-- `get` answers none where the slice does not exist.
pub record Engine : Type 1 where
  pub State : Type 0
  pub get : State → Bytes → Result (Option Bytes)
  pub put : Bytes → Bytes → Action State (Unit {0})
  pub delete : Bytes → Action State (Unit {0})
  pub write : List BatchOp → Action State (Unit {0})
  pub seek : State → Bytes → Cursor
