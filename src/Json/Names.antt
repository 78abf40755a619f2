-- ===== src/Json/Names.antt =====
-- The names of fields are ASCII: their case is that of ASCII letters.
use uniswapv3_tick_state.Prelude.{
  ◌+◌, ◌≡◌, refl, ap, ◌∙◌, Bool, true, false, ◌&&◌, List, [], ◌∷◌, leb, ltb, if◌then◌else◌,
}
use uniswapv3_tick_state.Result.{Result, ok, err, panic, bind}
use uniswapv3_tick_state.Bytes.{Bytes}
use uniswapv3_tick_state.Json.{
  Json, fraction, text, array, object, Items, no_items, item, Members, no_members, member, JsonText,
  Field, set_member, read_members,
}

abbrev pub is_ascii : Bytes → Bool
is_ascii [] = true
is_ascii (c ∷ s) = ltb c 128 && is_ascii s

abbrev pub to_lower : Bytes → Bytes
to_lower [] = []
to_lower (c ∷ s) = (if leb 65 c && leb c 90 then c + 32 else c) ∷ to_lower s

-- Every text of the document is UTF-8, as `valid` tells it, and every number an integer.
unfoldable mutual
  pub IsUtf8 : (Bytes → Bool) → Json → Type 0
  IsUtf8 valid (text s) = valid s ≡ true
  IsUtf8 valid (fraction s) = ⊥
  IsUtf8 valid (array items) = AreUtf8 valid items
  IsUtf8 valid (object ms) = MembersAreUtf8 valid ms
  IsUtf8 valid _ = Unit

  pub AreUtf8 : (Bytes → Bool) → Items → Type 0
  AreUtf8 valid no_items = Unit
  AreUtf8 valid (item v rest) = IsUtf8 valid v × AreUtf8 valid rest

  pub MembersAreUtf8 : (Bytes → Bool) → Members → Type 0
  MembersAreUtf8 valid no_members = Unit
  MembersAreUtf8 valid (member name v rest) =
      (valid name ≡ true) × IsUtf8 valid v × MembersAreUtf8 valid rest

-- What encoding/json documents, with the test utf8.Valid: a document whose texts are UTF-8 is read
-- back as it was written, and ASCII names are compared by their lower case.
pub record JsonLaws (json : JsonText) : Type 0 where
  pub valid : Bytes → Bool
  pub ascii_valid : (s : Bytes) → is_ascii s ≡ true → valid s ≡ true
  pub unmarshal-marshal : (j : Json) → IsUtf8 valid j → json.unmarshal (json.marshal j) ≡ ok j
  pub fold_name_ascii : (s : Bytes) → is_ascii s ≡ true → json.fold_name s ≡ to_lower s

abbrev pub names_ascii : Members → Bool
names_ascii no_members = true
names_ascii (member name v rest) = is_ascii name && names_ascii rest

abbrev pub fields_ascii : {T : Type 0} → List (Field T) → Bool
fields_ascii [] = true
fields_ascii (f ∷ fields) = is_ascii f.name && fields_ascii fields

both : (a b : Bool) → a && b ≡ true → (a ≡ true) × (b ≡ true)
both true b h = (refl, h)
both false b h = cc

bind-ext :
    {A B : Type 0} (r : Result A) (f g : A → Result B) → ((a : A) → f a ≡ g a) → bind r f ≡ bind r g
bind-ext (ok a) f g same = same a
bind-ext (err e) f g same = refl
bind-ext panic f g same = refl

set_member-to_lower :
    {T : Type 0} (fold_name : Bytes → Bytes)
    → ((s : Bytes) → is_ascii s ≡ true → fold_name s ≡ to_lower s)
    → (fields : List (Field T)) (name : Bytes) (v : Json) (x : T) → is_ascii name ≡ true
    → fields_ascii fields ≡ true
    → set_member fold_name fields name v x ≡ set_member to_lower fields name v x
set_member-to_lower fold_name law [] name v x plain are = refl
set_member-to_lower fold_name law (f ∷ fields) name v x plain are =
    let (this, others) = both (is_ascii f.name) (fields_ascii fields) are in
    rw
      (
        law name plain,
        law f.name this,
        set_member-to_lower fold_name law fields name v x plain others,
      )
      refl

-- Members with ASCII names are read as if by their lower case.
pub read_members-to_lower :
    {T : Type 0} (fold_name : Bytes → Bytes)
    → ((s : Bytes) → is_ascii s ≡ true → fold_name s ≡ to_lower s)
    → (fields : List (Field T)) (ms : Members) (x : T) → names_ascii ms ≡ true
    → fields_ascii fields ≡ true
    → read_members fold_name fields ms x ≡ read_members to_lower fields ms x
read_members-to_lower fold_name law fields no_members x plain are = refl
read_members-to_lower fold_name law fields (member name v rest) x plain are =
    let (this, others) = both (is_ascii name) (names_ascii rest) plain in
    ap (λ r. bind r (λ y. read_members fold_name fields rest y))
      (set_member-to_lower fold_name law fields name v x this are)
    ∙ bind-ext (set_member to_lower fields name v x) _ _
        (λ y. read_members-to_lower fold_name law fields rest y others are)
