-- ===== src/Engine/Cursors.antt =====
-- Where the keys of a cursor lie.
use uniswapv3_tick_state.Prelude.{◌≡◌, refl, sym, ap, ◌∙◌, false, inl, inr, none, some, Bool-cases}
use uniswapv3_tick_state.Bytes.{Bytes, bytes_ltb, bytes_eqb}
use uniswapv3_tick_state.Bytes.Order.{bytes_ltb_trans, bytes_eqb→eq, bytes_eqb_of_ltb}
use uniswapv3_tick_state.Engine.{Cursor, entry, end}
use uniswapv3_tick_state.Engine.Laws.{cursor_find, AscendsFrom, Ascends}

-- A key below the start of an ascending cursor, or at it, is not found there.
pub find-AscendsFrom :
    (p j : Bytes) (c : Cursor) → AscendsFrom p c → bytes_ltb p j ≡ false → cursor_find c j ≡ none
find-AscendsFrom p j (end e) h low = refl
find-AscendsFrom p j (entry k v rest) h low = elim (Bool-cases (bytes_ltb k j)) [
  | inl above ↦ cc (sym low ∙ bytes_ltb_trans p k j h.0 above)
  | inr below ↦ elim (Bool-cases (bytes_eqb k j)) [
    | inl same ↦ cc (sym low ∙ ap (bytes_ltb p) (sym (bytes_eqb→eq k j same)) ∙ h.0)
    | inr differ ↦ rw differ (find-AscendsFrom k j rest h.1 below)
  ]
]

-- What stands behind an entry is found as if the entry were not there.
pub find-behind :
    (k v j w : Bytes) (rest : Cursor)
    → AscendsFrom k rest
    → cursor_find rest j ≡ some w
    → cursor_find (entry k v rest) j ≡ some w
find-behind k v j w rest h e = elim (Bool-cases (bytes_ltb k j)) [
  | inl above ↦ rw (bytes_eqb_of_ltb k j above) e
  | inr below ↦ cc (sym (find-AscendsFrom k j rest h below) ∙ e)
]

pub AscendsFrom-Ascends : (k : Bytes) (c : Cursor) → AscendsFrom k c → Ascends c
AscendsFrom-Ascends k (end e) h = h
AscendsFrom-Ascends k (entry j v rest) h = h.1
