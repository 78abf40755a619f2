-- ===== src/Samples/Memory.antt =====
-- An engine that keeps its entries in a list, the newest first, and sorts them for an iterator; and
-- addresses whose last byte alone tells them apart.
use mathlib.Core.Path.{subst, fun_ext, ap₂}
use mathlib.Core.Option
use uniswapv3_tick_state.Prelude.{
  ℕ, ◌≡◌, refl, sym, ap, ◌∙◌, Bool, true, false, inl, inr, Option, none, some, List, [], ◌∷◌,
  if◌then◌else◌, Bool-cases, arith, get_elem?,
}
use uniswapv3_tick_state.Result.{ok}
use uniswapv3_tick_state.Bytes.{Bytes, bytes_ltb, bytes_eqb}
use uniswapv3_tick_state.Bytes.Order.{bytes_eqb→eq, bytes_eqb_refl, bytes_ltb_total}
use uniswapv3_tick_state.Address.{AddressType}
use uniswapv3_tick_state.Engine.{Engine, Cursor, entry, end, BatchOp}
use uniswapv3_tick_state.Engine.Laws.{
  EngineLaws, contents_put, in_range, apply_op, apply_ops, cursor_find, AscendsFrom, Ascends,
}

abbrev pub Entries : Type 0
Entries = List (Bytes × Bytes)

unfoldable pub find : Entries → Bytes → Option Bytes
find [] j = none
find ((k, v) ∷ s) j = if bytes_eqb k j then some v else find s j

unfoldable pub remove : (Bytes → Bool) → Entries → Entries
remove p [] = []
remove p ((k, v) ∷ s) = let rest = remove p s in if p k then rest else (k, v) ∷ rest

pub write_op : BatchOp → Entries → Entries
unfolding remove
write_op (BatchOp.put k v) s = (k, v) ∷ s
write_op (BatchOp.delete k) s = remove (bytes_eqb k) s
write_op (BatchOp.delete_range from to) s = remove (in_range from to) s

pub write_ops : List BatchOp → Entries → Entries
unfolding write_op
write_ops [] s = s
write_ops (op ∷ ops) s = write_ops ops (write_op op s)

unfoldable pub insert : Bytes → Bytes → Cursor → Cursor
insert k v (end e) = entry k v (end e)
insert k v (entry j w rest) =
    let later = entry j w (insert k v rest) in
    if bytes_eqb k j
    then entry k v rest
    else if bytes_ltb k j
    then entry k v (entry j w rest)
    else later

unfoldable pub sorted : Entries → Cursor
unfolding insert
sorted [] = end none
sorted ((k, v) ∷ s) = insert k v (sorted s)

none_both :
    (b : Bool) (x y : Option Bytes) → b ≡ true → (if b then none else x) ≡ (if b then none else y)
none_both true x y h = refl
none_both false x y h = cc

pub find-remove :
    (p : Bytes → Bool) (s : Entries) (j : Bytes)
    → find (remove p s) j ≡ (if p j then none else find s j)
unfolding find remove
find-remove p [] j = ground arith
find-remove p ((k, v) ∷ s) j = elim (Bool-cases (bytes_eqb k j)) [
  | inl same ↦
      let e : p j ≡ p k = ap p (sym (bytes_eqb→eq k j same)) in
      elim (Bool-cases (p k)) [
        | inl gone ↦ rw gone (find-remove p s j ∙ none_both (p j) _ _ (e ∙ gone))
        | inr kept ↦ rw (kept, e ∙ kept, same) refl
      ]
  | inr differ ↦ elim (Bool-cases (p k)) [
    | inl gone ↦ rw (gone, differ) (find-remove p s j)
    | inr kept ↦ rw (kept, differ) (find-remove p s j)
  ]
]

pub find-write_op :
    (op : BatchOp) (s : Entries) (j : Bytes) → find (write_op op s) j ≡ apply_op op (find s) j
unfolding write_op
find-write_op (BatchOp.put k v) s j = unfold find in refl
find-write_op (BatchOp.delete k) s j = find-remove (bytes_eqb k) s j
find-write_op (BatchOp.delete_range from to) s j = find-remove (in_range from to) s j

if_same {ℓ} :
    {A : Type ℓ} (p q : Bool) (x y z : A)
    → p ≡ q
    → (if p then x else z) ≡ (if p then x else if q then y else z)
if_same true q x y z h = refl
if_same false true x y z h = cc
if_same false false x y z h = refl

if_swap {ℓ} :
    {A : Type ℓ} (p q : Bool) (x y z : A)
    → (p ≡ true → q ≡ true → ⊥)
    → (if p then x else if q then y else z) ≡ (if q then y else if p then x else z)
if_swap true true x y z h = absurd (h refl refl)
if_swap true false x y z h = refl
if_swap false q x y z h = refl

cursor_find-insert :
    (k v : Bytes) (c : Cursor) (j : Bytes)
    → cursor_find (insert k v c) j ≡ contents_put k v (cursor_find c) j
unfolding insert
cursor_find-insert k v (end e) j = refl
cursor_find-insert k v (entry i w rest) j = elim (Bool-cases (bytes_eqb k i)) [
  | inl same ↦ rw same (
      if_same (bytes_eqb k j) (bytes_eqb i j) _ _ _
        (ap (λ x. bytes_eqb x j) (bytes_eqb→eq k i same)))
  | inr differ ↦ elim (Bool-cases (bytes_ltb k i)) [
    | inl below ↦ rw (differ, below) refl
    | inr above ↦
        rw (differ, above, cursor_find-insert k v rest j)
          (if_swap (bytes_eqb i j) (bytes_eqb k j) _ _ _ λ p q. cc (
            sym differ
            ∙ ap₂ bytes_eqb (bytes_eqb→eq k j q) (bytes_eqb→eq i j p)
            ∙ bytes_eqb_refl j))
  ]
]

AscendsFrom-insert :
    (p k v : Bytes) (c : Cursor)
    → bytes_ltb p k ≡ true
    → AscendsFrom p c
    → AscendsFrom p (insert k v c)
unfolding insert
AscendsFrom-insert p k v (end e) lt h = (lt, h)
AscendsFrom-insert p k v (entry i w rest) lt h = elim (Bool-cases (bytes_eqb k i)) [
  | inl same ↦ rw same (lt, subst (λ x. AscendsFrom x rest) (sym (bytes_eqb→eq k i same)) h.1)
  | inr differ ↦ elim (Bool-cases (bytes_ltb k i)) [
    | inl below ↦ rw (differ, below) (lt, (below, h.1))
    | inr above ↦
        rw (differ, above)
          (h.0, AscendsFrom-insert i k v rest (bytes_ltb_total k i differ above) h.1)
  ]
]

Ascends-insert : (k v : Bytes) (c : Cursor) → Ascends c → Ascends (insert k v c)
unfolding insert
Ascends-insert k v (end e) h = h
Ascends-insert k v (entry i w rest) h = elim (Bool-cases (bytes_eqb k i)) [
  | inl same ↦ rw same (subst (λ x. AscendsFrom x rest) (sym (bytes_eqb→eq k i same)) h)
  | inr differ ↦ elim (Bool-cases (bytes_ltb k i)) [
    | inl below ↦ rw (differ, below) (below, h)
    | inr above ↦
        rw (differ, above) (AscendsFrom-insert i k v rest (bytes_ltb_total k i differ above) h)
  ]
]

pub sorted-Ascends : (s : Entries) → Ascends (sorted s)
unfolding sorted
sorted-Ascends [] = refl
sorted-Ascends ((k, v) ∷ s) = Ascends-insert k v (sorted s) (sorted-Ascends s)

pub cursor_find-sorted : (s : Entries) (j : Bytes) → cursor_find (sorted s) j ≡ find s j
unfolding sorted find
cursor_find-sorted [] j = refl
cursor_find-sorted ((k, v) ∷ s) j =
    cursor_find-insert k v (sorted s) j
    ∙ ap (λ x. if bytes_eqb k j then some v else x) (cursor_find-sorted s j)

pub find-write_ops :
    (ops : List BatchOp) (s : Entries) → (λ j. find (write_ops ops s) j) ≡ apply_ops ops (find s)
unfolding write_ops
find-write_ops [] s = refl
find-write_ops (op ∷ ops) s =
    find-write_ops ops (write_op op s) ∙ ap (apply_ops ops) (fun_ext (find-write_op op s))

abbrev last_byte : Bytes → ℕ
last_byte b = Option.get_or (get_elem? b 19) 0

abbrev pub memory : Engine
memory = record {
  State = Entries;
  get = λ s k. ok (find s k);
  put = λ k v s. (ok tt, write_op (BatchOp.put k v) s);
  delete = λ k s. (ok tt, write_op (BatchOp.delete k) s);
  write = λ ops s. (ok tt, write_ops ops s);
  seek = λ s from. sorted (remove (λ k. bytes_ltb k from) s);
}

unfoldable pub memory-EngineLaws : EngineLaws memory
memory-EngineLaws = record {
  find = find;
  get_ok = λ s k. refl;
  put_ok = λ k v s. refl;
  find-put = λ k v s j. find-write_op (BatchOp.put k v) s j;
  delete_ok = λ k s. refl;
  find-delete = λ k s j. find-write_op (BatchOp.delete k) s j;
  write_ok = λ ops s. refl;
  find-write = λ ops s j. ap (λ f. f j) (find-write_ops ops s);
  seek-Ascends = λ s from. sorted-Ascends _;
  find-seek = λ s from j. cursor_find-sorted _ j ∙ find-remove (λ k. bytes_ltb k from) s j;
}

-- 19 zeros and one more number
abbrev pub byte_addresses : AddressType
byte_addresses = record {
  Address = ℕ;
  bytes = λ n. 0 ∷ 0 ∷ 0 ∷ 0 ∷ 0 ∷ 0 ∷ 0 ∷ 0 ∷ 0 ∷ 0 ∷ 0 ∷ 0 ∷ 0 ∷ 0 ∷ 0 ∷ 0 ∷ 0 ∷ 0 ∷ 0 ∷ n ∷ [];
  from_bytes = λ b. last_byte b;
  length-bytes = λ n. refl;
  from_bytes-bytes = λ n. refl;
}
