-- ===== src/Engine/Laws.antt =====
-- The documented behaviour of the engine while no operation fails.
use uniswapv3_tick_state.Prelude.{
  ◌≡◌, Bool, true, not, ◌&&◌, Option, none, some, List, [], ◌∷◌, if◌then◌else◌,
}
use uniswapv3_tick_state.Result.{ok}
use uniswapv3_tick_state.Bytes.{Bytes, bytes_ltb, bytes_eqb}
use uniswapv3_tick_state.Engine.{Engine, Cursor, entry, end, BatchOp}

-- The contents of a database.
abbrev pub Contents : Type 0
Contents = Bytes → Option Bytes

abbrev pub contents_put : Bytes → Bytes → Contents → Contents
contents_put k v c j = if bytes_eqb k j then some v else c j

abbrev pub contents_delete : Bytes → Contents → Contents
contents_delete k c j = if bytes_eqb k j then none else c j

abbrev pub in_range : Bytes → Bytes → Bytes → Bool
in_range from to j = not (bytes_ltb j from) && bytes_ltb j to

-- The operations of a batch take effect in order.
abbrev pub apply_op : BatchOp → Contents → Contents
apply_op (BatchOp.put k v) c = contents_put k v c
apply_op (BatchOp.delete k) c = contents_delete k c
apply_op (BatchOp.delete_range from to) c = λ j. if in_range from to j then none else c j

abbrev pub apply_ops : List BatchOp → Contents → Contents
apply_ops [] c = c
apply_ops (op ∷ ops) c = apply_ops ops (apply_op op c)

abbrev pub cursor_find : Cursor → Contents
cursor_find (entry k v rest) j = if bytes_eqb k j then some v else cursor_find rest j
cursor_find (end e) j = none

-- The keys ascend strictly from `k` on, and no error ends the walk.
abbrev pub AscendsFrom : Bytes → Cursor → Type 0
AscendsFrom k (entry j v rest) = (bytes_ltb k j ≡ true) × AscendsFrom j rest
AscendsFrom k (end e) = e ≡ none

abbrev pub Ascends : Cursor → Type 0
Ascends (entry k v rest) = AscendsFrom k rest
Ascends (end e) = e ≡ none

pub record EngineLaws (e : Engine) : Type 1 where
  pub find : e.State → Contents
  pub get_ok : (s : e.State) (k : Bytes) → e.get s k ≡ ok (find s k)
  pub put_ok : (k v : Bytes) (s : e.State) → (e.put k v s).0 ≡ ok tt
  pub find-put :
      (k v : Bytes) (s : e.State) (j : Bytes) → find (e.put k v s).1 j ≡ contents_put k v (find s) j
  pub delete_ok : (k : Bytes) (s : e.State) → (e.delete k s).0 ≡ ok tt
  pub find-delete :
      (k : Bytes) (s : e.State) (j : Bytes) → find (e.delete k s).1 j ≡ contents_delete k (find s) j
  pub write_ok : (ops : List BatchOp) (s : e.State) → (e.write ops s).0 ≡ ok tt
  pub find-write :
      (ops : List BatchOp) (s : e.State) (j : Bytes)
      → find (e.write ops s).1 j ≡ apply_ops ops (find s) j
  pub seek-Ascends : (s : e.State) (from : Bytes) → Ascends (e.seek s from)
  pub find-seek :
      (s : e.State) (from j : Bytes)
      → cursor_find (e.seek s from) j ≡ (if bytes_ltb j from then none else find s j)
