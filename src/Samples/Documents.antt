-- ===== src/Samples/Documents.antt =====
-- A text of documents in postfix form, read by a machine with a stack: a code from 20 on is a
-- character, 20 higher than it is, and the smaller ones put together what the stack has.
use uniswapv3_tick_state.Prelude.{
  ℕ, ◌+◌, ◌-◌, ◌==◌, if◌then◌else◌, arith, ◌≡◌, refl, ap, ◌∙◌, Bool, true, false, List, [], ◌∷◌,
  pos, negsuc,
}
use uniswapv3_tick_state.Result.{Result, ok, err}
use uniswapv3_tick_state.Bytes.{Bytes}
use uniswapv3_tick_state.Json.{
  Json, null, bool, number, fraction, text, object, array, Items, no_items, item, Members,
  no_members, member, JsonText, type_error,
}
use uniswapv3_tick_state.Json.Names.{JsonLaws, IsUtf8, AreUtf8, MembersAreUtf8, to_lower}

pub data Part : Type 0 where
  string : Bytes → Part
  value : Json → Part
  items : Items → Part
  fields : Members → Part

pub data Token : Type 0 where
  empty_text null_value true_value false_value natural negative text_value empty_items one_item
        array_value empty_fields one_field object_value :
      Token
  character : ℕ → Token

pub token_of : ℕ → Token
token_of n =
    if n == 0
    then empty_text
    else if n == 1
    then null_value
    else if n == 2
    then true_value
    else if n == 3
    then false_value
    else if n == 4
    then natural
    else if n == 5
    then negative
    else if n == 6
    then text_value
    else if n == 7
    then empty_items
    else if n == 8
    then one_item
    else if n == 9
    then array_value
    else if n == 10
    then empty_fields
    else if n == 11
    then one_field
    else if n == 12
    then object_value
    else character (n - 20)

pub step : Token → List Part → List Part
step empty_text st = string [] ∷ st
step null_value st = value null ∷ st
step true_value st = value (bool true) ∷ st
step false_value st = value (bool false) ∷ st
step natural (string (n ∷ []) ∷ st) = value (number (pos n)) ∷ st
step negative (string (n ∷ []) ∷ st) = value (number (negsuc n)) ∷ st
step text_value (string s ∷ st) = value (text s) ∷ st
step empty_items st = items no_items ∷ st
step one_item (value v ∷ items vs ∷ st) = items (item v vs) ∷ st
step array_value (items vs ∷ st) = value (array vs) ∷ st
step empty_fields st = fields no_members ∷ st
step one_field (value v ∷ string s ∷ fields ms ∷ st) = fields (member s v ms) ∷ st
step object_value (fields ms ∷ st) = value (object ms) ∷ st
step (character c) (string s ∷ st) = string (c ∷ s) ∷ st
step _ st = []

pub read_codes : Bytes → List Part → List Part
unfolding step token_of
read_codes [] st = st
read_codes (n ∷ bs) st = read_codes bs (step (token_of n) st)

pub put_text : Bytes → Bytes → Bytes
put_text [] k = 0 ∷ k
put_text (c ∷ s) k = put_text s ((20 + c) ∷ k)

mutual
  unfolding put_text

  pub put : Json → Bytes → Bytes
  put null k = 1 ∷ k
  put (bool true) k = 2 ∷ k
  put (bool false) k = 3 ∷ k
  put (number (pos n)) k = 0 ∷ (20 + n) ∷ 4 ∷ k
  put (number (negsuc n)) k = 0 ∷ (20 + n) ∷ 5 ∷ k
  put (fraction s) k = k
  put (text s) k = put_text s (6 ∷ k)
  put (array vs) k = put_items vs (9 ∷ k)
  put (object ms) k = put_members ms (12 ∷ k)

  put_items : Items → Bytes → Bytes
  put_items no_items k = 7 ∷ k
  put_items (item v vs) k = put_items vs (put v (8 ∷ k))

  put_members : Members → Bytes → Bytes
  put_members no_members k = 10 ∷ k
  put_members (member s v ms) k = put_members ms (put_text s (put v (11 ∷ k)))

result_of : List Part → Result Json
result_of (value v ∷ []) = ok v
result_of _ = err type_error

unfoldable pub documents : JsonText
unfolding put read_codes result_of
documents = record {
  marshal = λ j. put j [];
  unmarshal = λ bs. result_of (read_codes bs []);
  fold_name = to_lower;
}

character_of : (c : ℕ) → token_of (20 + c) ≡ character c
unfolding token_of
character_of c = ground arith

read_codes-put_text :
    (s k : Bytes) (st : List Part) → read_codes (put_text s k) st ≡ read_codes k (string s ∷ st)
unfolding put_text read_codes step token_of
read_codes-put_text [] k st = refl
read_codes-put_text (c ∷ s) k st =
    read_codes-put_text s ((20 + c) ∷ k) st
    ∙ ap (λ t. read_codes k (step t (string s ∷ st))) (character_of c)

mutual
  unfolding put put_text read_codes step token_of IsUtf8

  pub read_codes-put :
      (valid : Bytes → Bool) (j : Json) (k : Bytes) (st : List Part)
      → IsUtf8 valid j
      → read_codes (put j k) st ≡ read_codes k (value j ∷ st)
  read_codes-put valid null k st plain = refl
  read_codes-put valid (bool true) k st plain = refl
  read_codes-put valid (bool false) k st plain = refl
  read_codes-put valid (number (pos n)) k st plain =
      ap (λ t. read_codes (4 ∷ k) (step t (string [] ∷ st))) (character_of n)
  read_codes-put valid (number (negsuc n)) k st plain =
      ap (λ t. read_codes (5 ∷ k) (step t (string [] ∷ st))) (character_of n)
  read_codes-put valid (fraction s) k st plain = absurd plain
  read_codes-put valid (text s) k st plain = read_codes-put_text s (6 ∷ k) st
  read_codes-put valid (array vs) k st plain = read_codes-put_items valid vs (9 ∷ k) st plain
  read_codes-put valid (object ms) k st plain = read_codes-put_members valid ms (12 ∷ k) st plain

  read_codes-put_items :
      (valid : Bytes → Bool) (vs : Items) (k : Bytes) (st : List Part)
      → AreUtf8 valid vs
      → read_codes (put_items vs k) st ≡ read_codes k (items vs ∷ st)
  read_codes-put_items valid no_items k st plain = refl
  read_codes-put_items valid (item v vs) k st plain =
      read_codes-put_items valid vs (put v (8 ∷ k)) st plain.1
      ∙ read_codes-put valid v (8 ∷ k) (items vs ∷ st) plain.0

  read_codes-put_members :
      (valid : Bytes → Bool) (ms : Members) (k : Bytes) (st : List Part)
      → MembersAreUtf8 valid ms
      → read_codes (put_members ms k) st ≡ read_codes k (fields ms ∷ st)
  read_codes-put_members valid no_members k st plain = refl
  read_codes-put_members valid (member s v ms) k st plain =
      read_codes-put_members valid ms (put_text s (put v (11 ∷ k))) st plain.2
      ∙ read_codes-put_text s (put v (11 ∷ k)) (fields ms ∷ st)
      ∙ read_codes-put valid v (11 ∷ k) (string s ∷ fields ms ∷ st) plain.1

unfoldable pub documents-JsonLaws : JsonLaws documents
unfolding documents put read_codes result_of
documents-JsonLaws = record {
  valid = λ s. true;
  ascii_valid = λ s plain. refl;
  unmarshal-marshal = λ j plain. ap result_of (read_codes-put (λ s. true) j [] [] plain);
  fold_name_ascii = λ s plain. refl;
}
