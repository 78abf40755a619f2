-- ===== src/PairJson/RoundTrip.antt =====
-- Reading back a pair that was written.
use mathlib.Core.Path.{subst}
use uniswapv3_tick_state.Prelude.{
  ◌^◌, ◌<◌, ◌≡◌, ◌↔◌, refl, ap, ◌∙◌, true, Option, none, some, [], eqb_ℤ, eqb_ℤ_refl, eqb_ℤ→eq, ltb,
  arith,
}
use uniswapv3_tick_state.Result.{ok, bind}
use uniswapv3_tick_state.Bytes.{Bytes, codes, bytes_eqb}
use uniswapv3_tick_state.Bytes.Order.{bytes_eqb→eq, bytes_eqb_refl}
use uniswapv3_tick_state.Address.{addr_eqb, addr_eqb_refl, addr_eqb→eq}
use uniswapv3_tick_state.Json.{Json, object, JsonText, read_pointer, read_members, fits_int}
use uniswapv3_tick_state.Json.Names.{
  JsonLaws, IsUtf8, MembersAreUtf8, is_ascii, to_lower, read_members-to_lower,
}
use uniswapv3_tick_state.PairJson.{
  PairLib, equal, is_same_address, TokenCore, marshal_json, unmarshal_json, token_fields,
  pair_fields, token_members, pair_members, ThisPair, pointer_json, new_token, read_pair,
  marshal_binary, unmarshal_binary,
}

-- What go-ethereum, decimal and time document of their texts.
pub record PairLaws (json : JsonText) (lib : PairLib) (laws : JsonLaws json) : Type 0 where
  pub from_hex-hex : (a : lib.address.Address) → lib.from_hex (lib.hex a) ≡ a
  pub hex_ascii : (a : lib.address.Address) → is_ascii (lib.hex a) ≡ true
  pub read_decimal-decimal_json :
      (d old : lib.Decimal) → lib.read_decimal (lib.decimal_json d) old ≡ ok d
  pub decimal_utf8 : (d : lib.Decimal) → IsUtf8 laws.valid (lib.decimal_json d)
  pub read_time-time_json :
      (t old : lib.Time) (j : Json) → lib.time_json t ≡ ok j → lib.read_time j old ≡ ok t
  pub time_utf8 : (t : lib.Time) (j : Json) → lib.time_json t ≡ ok j → IsUtf8 laws.valid j

-- Equal says whether two tokens are the same.
pub equal_lem :
    (json : JsonText) (lib : PairLib) (t token : TokenCore lib.address.Address)
    → (equal json lib t token ≡ true) ↔ (t ≡ token)
unfolding equal is_same_address
equal_lem json lib t token = (
  λ same.
      let addresses : addr_eqb lib.address t.address token.address ≡ true = ground arith in
      let symbols : bytes_eqb t.symbol token.symbol ≡ true = ground arith in
      let decimals : eqb_ℤ t.decimals token.decimals ≡ true = ground arith in
      ap (λ a. record t { address = a }) (addr_eqb→eq lib.address t.address token.address addresses)
      ∙ ap (λ s. record t { address = token.address; symbol = s })
          (bytes_eqb→eq t.symbol token.symbol symbols)
      ∙ ap (λ z. record token { decimals = z }) (eqb_ℤ→eq t.decimals token.decimals decimals),
  λ same.
      subst (λ u. equal json lib t u ≡ true) same
        (rw (addr_eqb_refl lib.address t.address, bytes_eqb_refl t.symbol, eqb_ℤ_refl t.decimals)
          refl),
)

module _ (json : JsonText) (lib : PairLib) (laws : JsonLaws json)
    (pair_laws : PairLaws json lib laws) where
  -- Go's types and UTF-8.
  abbrev pub TokenFits : TokenCore lib.address.Address → Type 0
  TokenFits t = (fits_int 7 t.decimals ≡ true) × (laws.valid t.symbol ≡ true)

  abbrev pub PointerFits : Option (TokenCore lib.address.Address) → Type 0
  PointerFits none = Unit
  PointerFits (some t) = TokenFits t

  read_token :
      (t old : TokenCore lib.address.Address)
      → fits_int 7 t.decimals ≡ true
      → read_members to_lower (token_fields json lib) (token_members json lib t) ([], old)
        ≡ ok (lib.hex t.address, record old { symbol = t.symbol; decimals = t.decimals })
  unfolding bytes_eqb
  read_token t old fits = rw fits refl

  unmarshal_json-marshal_json :
      (t old : TokenCore lib.address.Address)
      → TokenFits t
      → unmarshal_json json lib (marshal_json json lib t) old ≡ ok t
  unfolding marshal_json unmarshal_json
  unmarshal_json-marshal_json t old fits =
      ap (λ r. bind r (λ aux. ok (record aux.1 { address = lib.from_hex aux.0 })))
        (read_members-to_lower json.fold_name laws.fold_name_ascii (token_fields json lib)
            (token_members json lib t) ([], old) refl refl
          ∙ read_token t old fits.0)
      ∙ ap (λ a. ok (record t { address = a })) (pair_laws.from_hex-hex t.address)

  read_pointer-pointer_json :
      (t old : Option (TokenCore lib.address.Address))
      → PointerFits t
      → read_pointer (unmarshal_json json lib) (new_token json lib) (pointer_json json lib t) old
        ≡ ok t
  unfolding marshal_json
  read_pointer-pointer_json none old fits = refl
  read_pointer-pointer_json (some t) none fits =
      ap (λ r. bind r (λ x. ok (some x))) (unmarshal_json-marshal_json t (new_token json lib) fits)
  read_pointer-pointer_json (some t) (some old) fits =
      ap (λ r. bind r (λ x. ok (some x))) (unmarshal_json-marshal_json t old fits)

  read_pair_members :
      (p old : ThisPair json lib) (block_at timestamp : Json)
      → PointerFits p.token0_core
      → PointerFits p.token1_core
      → p.block < 2 ^ 64
      → fits_int 63 p.protocol_id ≡ true
      → fits_int 63 p.filter_code ≡ true
      → lib.time_json p.block_at ≡ ok block_at
      → lib.time_json p.timestamp ≡ ok timestamp
      → read_members to_lower
          (pair_fields json lib)
          (pair_members json lib p block_at timestamp)
          ([], old)
        ≡ ok (lib.hex p.address, record p { address = old.address })
  unfolding bytes_eqb pair_fields
  read_pair_members p old block_at timestamp fits0 fits1 block_fits id_fits code_fits at_ok
        stamp_ok =
      let block_lt : ltb p.block (2 ^ 64) ≡ true = ground arith in
      rw
        (
          read_pointer-pointer_json p.token0_core old.token0_core fits0,
          read_pointer-pointer_json p.token1_core old.token1_core fits1,
          pair_laws.read_decimal-decimal_json p.token0_init_amount old.token0_init_amount,
          pair_laws.read_decimal-decimal_json p.token1_init_amount old.token1_init_amount,
          block_lt,
          pair_laws.read_time-time_json p.block_at old.block_at block_at at_ok,
          id_fits,
          code_fits,
          pair_laws.read_time-time_json p.timestamp old.timestamp timestamp stamp_ok,
        )
        refl

  -- The fields are of their Go types, and the symbols are UTF-8.
  abbrev pub PairFits : ThisPair json lib → Type 0
  PairFits p =
      PointerFits p.token0_core
      × PointerFits p.token1_core
      × (p.block < 2 ^ 64)
      × (fits_int 63 p.protocol_id ≡ true)
      × (fits_int 63 p.filter_code ≡ true)

  named :
      {A B : Type 0} (name : Bytes)
      → is_ascii name ≡ true
      → A
      → B
      → (laws.valid name ≡ true) × A × B
  named name plain a b = (laws.ascii_valid name plain, a, b)

  hex-IsUtf8 : (a : lib.address.Address) → laws.valid (lib.hex a) ≡ true
  hex-IsUtf8 a = laws.ascii_valid (lib.hex a) (pair_laws.hex_ascii a)

  pointer_json-IsUtf8 :
      (t : Option (TokenCore lib.address.Address))
      → PointerFits t
      → IsUtf8 laws.valid (pointer_json json lib t)
  unfolding marshal_json IsUtf8 MembersAreUtf8
  pointer_json-IsUtf8 none fits = tt
  pointer_json-IsUtf8 (some t) fits =
      named (codes "Address") refl (hex-IsUtf8 t.address)
        (named (codes "Symbol") refl fits.1 (named (codes "Decimals") refl tt tt))

  pair_members-AreUtf8 :
      (p : ThisPair json lib) (block_at timestamp : Json)
      → PairFits p
      → IsUtf8 laws.valid block_at
      → IsUtf8 laws.valid timestamp
      → IsUtf8 laws.valid (object (pair_members json lib p block_at timestamp))
  unfolding IsUtf8 MembersAreUtf8
  pair_members-AreUtf8 p block_at timestamp fits at_plain stamp_plain =
      named (codes "Address") refl (hex-IsUtf8 p.address) (
        named (codes "TokensReversed") refl tt (
          named (codes "Token0Core") refl (pointer_json-IsUtf8 p.token0_core fits.0) (
            named (codes "Token1Core") refl (pointer_json-IsUtf8 p.token1_core fits.1) (
              named (codes "Token0InitAmount") refl (pair_laws.decimal_utf8 p.token0_init_amount) (
                named (codes "Token1InitAmount") refl (pair_laws.decimal_utf8 p.token1_init_amount)
                  (named (codes "Block") refl tt (
                    named (codes "BlockAt") refl at_plain (
                      named (codes "ProtocolId") refl tt (
                        named (codes "Filtered") refl tt (
                          named (codes "FilterCode") refl tt
                            (named (codes "Timestamp") refl stamp_plain tt)))))))))))

  -- A pair whose two times have a form in JSON, whose numbers fit their Go types and whose symbols
  -- are UTF-8 is written by MarshalBinary without an error, and UnmarshalBinary of the bytes gives that
  -- pair, with nil tokens nil, whatever the target held before; encoding/json, go-ethereum, decimal
  -- and time keep their documented laws.
  pub unmarshal_binary-marshal_binary :
      (p old : ThisPair json lib) (block_at timestamp : Json)
      → PairFits p
      → lib.time_json p.block_at ≡ ok block_at
      → lib.time_json p.timestamp ≡ ok timestamp
      → (bs : Bytes) × (marshal_binary json lib p ≡ ok bs)
        × (unmarshal_binary json lib bs old ≡ ok p)
  unfolding marshal_binary unmarshal_binary read_pair
  unmarshal_binary-marshal_binary p old block_at timestamp fits at_ok stamp_ok = (
    _,
    rw (at_ok, stamp_ok) refl,
    ap (λ r. bind r (λ v. read_pair json lib v old))
          (laws.unmarshal-marshal (object (pair_members json lib p block_at timestamp)) (
            pair_members-AreUtf8 p block_at timestamp fits
              (pair_laws.time_utf8 p.block_at block_at at_ok)
              (pair_laws.time_utf8 p.timestamp timestamp stamp_ok)))
        ∙ ap (λ r. bind r (λ aux. ok (record aux.1 { address = lib.from_hex aux.0 })))
            (read_members-to_lower json.fold_name laws.fold_name_ascii (pair_fields json lib)
                (pair_members json lib p block_at timestamp) ([], old) refl refl
              ∙ read_pair_members p old block_at timestamp fits.0 fits.1 fits.2 fits.3 fits.4 at_ok
                  stamp_ok)
        ∙ ap (λ a. ok (record p { address = a })) (pair_laws.from_hex-hex p.address),
  )
