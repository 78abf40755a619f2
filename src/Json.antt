-- ===== src/Json.antt =====
-- encoding/json: documents, and how an object is read into a struct, field by field.
pub mod Names
use uniswapv3_tick_state.Prelude.{
  ℕ, ◌+◌, ◌-◌, ◌^◌, Bool, true, false, ◌&&◌, Option, none, some, List, [], ◌∷◌, ℤ, pos, negsuc, leb,
  ltb, if◌then◌else◌,
}
use uniswapv3_tick_state.Result.{Error, foreign, Result, ok, err, bind}
use uniswapv3_tick_state.Bytes.{Bytes, bytes_eqb}

-- A number that is written as an integer is its value, another one its text. An object may have a
-- name twice.
mutual
  pub data Json : Type 0 where
    null : Json
    bool : Bool → Json
    number : ℤ → Json
    fraction : Bytes → Json
    text : Bytes → Json
    array : Items → Json
    object : Members → Json

  pub data Items : Type 0 where
    no_items : Items
    item : Json → Items → Items

  pub data Members : Type 0 where
    no_members : Members
    member : Bytes → Json → Members → Members

-- The text of documents and the letter case of names: `marshal` writes a document, `unmarshal` reads
-- one or fails, and `fold_name` is equal where names differ only in case.
pub record JsonText : Type 0 where
  pub marshal : Json → Bytes
  pub unmarshal : Bytes → Result Json
  pub fold_name : Bytes → Bytes

-- UnmarshalTypeError
abbrev pub type_error : Error
type_error = foreign 11

abbrev pub members : List (Bytes × Json) → Members
members [] = no_members
members ((name, v) ∷ rest) = member name v (members rest)

-- A field of a struct: its name in a document, and how a value is read into it.
pub record Field (T : Type 0) : Type 0 where
  pub name : Bytes
  pub set : Json → T → Result T

-- Reads into strings, booleans and integers; null leaves what is there.
abbrev pub read_text : Json → Bytes → Result Bytes
read_text null old = ok old
read_text (text s) old = ok s
read_text _ old = err type_error

abbrev pub read_bool : Json → Bool → Result Bool
read_bool null old = ok old
read_bool (bool b) old = ok b
read_bool _ old = err type_error

-- the integers of w + 1 bits
abbrev pub fits_int : ℕ → ℤ → Bool
fits_int w (pos n) = ltb n (2 ^ w)
fits_int w (negsuc n) = ltb n (2 ^ w)

abbrev pub read_int : ℕ → Json → ℤ → Result ℤ
read_int w null old = ok old
read_int w (number z) old = if fits_int w z then ok z else err type_error
read_int w _ old = err type_error

abbrev pub read_uint64 : Json → ℕ → Result ℕ
read_uint64 null old = ok old
read_uint64 (number (pos n)) old = if ltb n (2 ^ 64) then ok n else err type_error
read_uint64 _ old = err type_error

-- a pointer to a struct: null makes it nil, and a nil one gets a new struct
abbrev pub read_pointer :
    {T : Type 0} → (Json → T → Result T) → T → Json → Option T → Result (Option T)
read_pointer read zero_value null old = ok none
read_pointer read zero_value v none = bind (read v zero_value) (λ x. ok (some x))
read_pointer read zero_value v (some x) = bind (read v x) (λ y. ok (some y))

module _ {T : Type 0} (fold_name : Bytes → Bytes) where
  -- a name that no field has is passed over
  abbrev pub set_member : List (Field T) → Bytes → Json → T → Result T
  set_member [] key v x = ok x
  set_member (f ∷ fields) key v x =
      let others = set_member fields key v x in
      if bytes_eqb (fold_name key) (fold_name f.name) then f.set v x else others

  abbrev pub read_members : List (Field T) → Members → T → Result T
  read_members fields no_members x = ok x
  read_members fields (member key v rest) x =
      bind (set_member fields key v x) (λ y. read_members fields rest y)

  abbrev pub read_struct : List (Field T) → Json → T → Result T
  read_struct fields null x = ok x
  read_struct fields (object ms) x = read_members fields ms x
  read_struct fields _ x = err type_error
