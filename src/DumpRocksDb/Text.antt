-- ===== src/DumpRocksDb/Text.antt =====
-- The text of a database against its contents.
use uniswapv3_tick_state.Prelude.{
  ℕ, ◌/◌, ◌%◌, ◌<◌, ◌≡◌, ◌⊎◌, refl, sym, ap, ◌∙◌, List, [], ◌∷◌, ◌++◌, All, inl, inr, Option, none,
  some, if◌then◌else◌, arith,
}
use uniswapv3_tick_state.Bytes.{Bytes, bytes_eqb, bytes_ltb}
use uniswapv3_tick_state.Engine.{Engine, Cursor, entry, end}
use uniswapv3_tick_state.Engine.Laws.{EngineLaws, cursor_find}
use uniswapv3_tick_state.DumpRocksDb.{hex_digit, encode_to_string, dump_entries, dump}

abbrev pub AreBytes : Bytes → Type 0
AreBytes bs = All (λ b. b < 256) bs

abbrev pub ShowsBytes : Cursor → Type 0
ShowsBytes (end e) = Unit
ShowsBytes (entry key val rest) = AreBytes key × AreBytes val × ShowsBytes rest

hex_digit-injective : (m n : ℕ) → m < 16 → n < 16 → hex_digit m ≡ hex_digit n → m ≡ n
hex_digit-injective m n lm ln e = ground arith

-- No digit is the mark behind a number, a colon or the end of the line.
hex_digit_mark : (n c : ℕ) → c < 48 ⊎ (c ≡ 58) → hex_digit n ≡ c → ⊥
hex_digit_mark n c mark e = ground arith

byte_of_digits :
    (a b : ℕ)
    → a < 256
    → b < 256
    → hex_digit (a / 16) ≡ hex_digit (b / 16)
    → hex_digit (a % 16) ≡ hex_digit (b % 16)
    → a ≡ b
byte_of_digits a b la lb high low =
    let h : a / 16 ≡ b / 16 =
      hex_digit-injective (a / 16) (b / 16) (omega arith) (omega arith) high in
    let l : a % 16 ≡ b % 16 =
      hex_digit-injective (a % 16) (b % 16) (omega arith) (omega arith) low in
    omega arith

encode_to_string-split :
    (c : ℕ)
    → c < 48 ⊎ (c ≡ 58)
    → (xs ys rest1 rest2 : Bytes) → AreBytes xs
    → AreBytes ys
    → encode_to_string xs ++ c ∷ rest1 ≡ encode_to_string ys ++ c ∷ rest2
    → (xs ≡ ys) × (rest1 ≡ rest2)
encode_to_string-split c mark [] [] rest1 rest2 bx by e = (refl, cc)
encode_to_string-split c mark [] (y ∷ ys) rest1 rest2 bx by e =
    absurd (hex_digit_mark (y / 16) c mark cc)
encode_to_string-split c mark (x ∷ xs) [] rest1 rest2 bx by e =
    absurd (hex_digit_mark (x / 16) c mark cc)
encode_to_string-split c mark (x ∷ xs) (y ∷ ys) rest1 rest2 bx by e =
    let high : hex_digit (x / 16) ≡ hex_digit (y / 16) = cc in
    let low : hex_digit (x % 16) ≡ hex_digit (y % 16) = cc in
    let others : encode_to_string xs ++ c ∷ rest1 ≡ encode_to_string ys ++ c ∷ rest2 = cc in
    let (same, rests) = encode_to_string-split c mark xs ys rest1 rest2 bx.1 by.1 others in
    (ap (λ z. z ∷ xs) (byte_of_digits x y bx.0 by.0 high low) ∙ ap (λ zs. y ∷ zs) same, rests)

abbrev pub entries : Cursor → List (Bytes × Bytes)
entries (end e) = []
entries (entry key val rest) = (key, val) ∷ entries rest

dump_entries-injective :
    (c d : Cursor)
    → ShowsBytes c
    → ShowsBytes d
    → dump_entries c ≡ dump_entries d
    → entries c ≡ entries d
unfolding dump_entries
dump_entries-injective (end e) (end f) bc bd same = refl
dump_entries-injective (end e) (entry [] val rest) bc bd same = cc
dump_entries-injective (end e) (entry (k ∷ key) val rest) bc bd same = cc
dump_entries-injective (entry [] val rest) (end e) bc bd same = cc
dump_entries-injective (entry (k ∷ key) val rest) (end e) bc bd same = cc
dump_entries-injective (entry k1 v1 rest1) (entry k2 v2 rest2) bc bd same =
    let (keys, lines) =
      encode_to_string-split 58 (inr refl) k1 k2 (encode_to_string v1 ++ 10 ∷ dump_entries rest1)
        (encode_to_string v2 ++ 10 ∷ dump_entries rest2) bc.0 bd.0 same in
    let (vals, others) =
      encode_to_string-split 10 (inl (omega arith)) v1 v2 (dump_entries rest1) (dump_entries rest2)
        bc.1 bd.1 lines in
    ap (λ k. (k, v1) ∷ entries rest1) keys
    ∙ ap (λ v. (k2, v) ∷ entries rest1) vals
    ∙ ap (λ es. (k2, v2) ∷ es) (dump_entries-injective rest1 rest2 bc.2 bd.2 others)

look_up : List (Bytes × Bytes) → Bytes → Option Bytes
look_up [] k = none
look_up ((k1, v) ∷ es) k = if bytes_eqb k1 k then some v else look_up es k

cursor_find-entries : (c : Cursor) (k : Bytes) → cursor_find c k ≡ look_up (entries c) k
unfolding look_up
cursor_find-entries (end e) k = refl
cursor_find-entries (entry k1 v rest) k =
    ap (λ o. if bytes_eqb k1 k then some v else o) (cursor_find-entries rest k)

-- No key is below the empty one.
all_seen : (k : Bytes) (o : Option Bytes) → o ≡ (if bytes_ltb k [] then none else o)
unfolding bytes_ltb
all_seen [] o = refl
all_seen (b ∷ k) o = refl

-- Two databases whose keys and values are bytes, each of an engine that keeps its documented laws:
-- where the tool prints the same text for both, they have the same value, or none, under every key.
pub dump-injective :
    (e f : Engine) (e_laws : EngineLaws e) (f_laws : EngineLaws f) (s : e.State) (t : f.State)
    → ShowsBytes (e.seek s [])
    → ShowsBytes (f.seek t [])
    → dump e s ≡ dump f t
    → (k : Bytes) → e_laws.find s k ≡ f_laws.find t k
unfolding dump bytes_ltb
dump-injective e f e_laws f_laws s t bs bt same k =
    all_seen k (e_laws.find s k)
    ∙ sym (e_laws.find-seek s [] k)
    ∙ cursor_find-entries (e.seek s []) k
    ∙ ap (λ es. look_up es k) (dump_entries-injective (e.seek s []) (f.seek t []) bs bt same)
    ∙ sym (cursor_find-entries (f.seek t []) k)
    ∙ f_laws.find-seek t [] k
    ∙ sym (all_seen k (f_laws.find t k))
