-- ===== src/PairJson.antt =====
-- pair.go: the tokens and pairs that Redis has, and their form in JSON. decimal.Decimal, time.Time
-- and the hexadecimal text of an address are parameters.
pub mod RoundTrip
use uniswapv3_tick_state.Prelude.{
  ℕ, ◌+◌, ◌^◌, ◌≡◌, Bool, true, false, ◌&&◌, not, Option, none, some, List, [], ◌∷◌, ℤ, pos, negsuc,
  eqb_ℤ, if◌then◌else◌,
}
use uniswapv3_tick_state.Result.{Result, ok, err, panic, bind}
use uniswapv3_tick_state.Bytes.{Bytes, codes, bytes_eqb}
use uniswapv3_tick_state.Address.{AddressType, addr_eqb}
use uniswapv3_tick_state.Json.{
  Json, null, bool, number, text, object, Members, members, JsonText, Field, read_text, read_bool,
  read_int, read_uint64, read_pointer, read_struct,
}

-- `hex` is addr.String() and `from_hex` common.HexToAddress; the values of `Decimal` and `Time` are
-- numbers and instants, whatever their form in memory. A time outside the years 0 to 9999 has no form
-- in JSON.
pub record PairLib : Type 1 where
  pub address : AddressType
  pub hex : address.Address → Bytes
  pub from_hex : Bytes → address.Address
  pub Decimal : Type 0
  pub decimal_json : Decimal → Json
  pub read_decimal : Json → Decimal → Result Decimal
  pub Time : Type 0
  pub time_json : Time → Result Json
  pub read_time : Json → Time → Result Time

pub record TokenCore (Address : Type 0) : Type 0 where
  pub address : Address
  pub symbol : Bytes
  pub decimals : ℤ

pub record Pair (Address Decimal Time : Type 0) : Type 0 where
  pub address : Address
  pub tokens_reversed : Bool
  pub token0_core : Option (TokenCore Address)
  pub token1_core : Option (TokenCore Address)
  pub token0_init_amount : Decimal
  pub token1_init_amount : Decimal
  pub block : ℕ
  pub block_at : Time
  pub protocol_id : ℤ
  pub filtered : Bool
  pub filter_code : ℤ
  pub timestamp : Time

module _ (json : JsonText) (lib : PairLib) where
  open lib use {
    address, hex, from_hex, Decimal, decimal_json, read_decimal, Time, time_json, read_time,
  }
  open address use {Address}

  unfoldable pub is_same_address : Address → Address → Bool
  is_same_address addr1 addr2 = addr_eqb address addr1 addr2

  unfoldable pub equal : TokenCore Address → TokenCore Address → Bool
  unfolding is_same_address
  equal t token =
      if not (is_same_address t.address token.address)
      then false
      else if not (bytes_eqb t.symbol token.symbol)
      then false
      else if not (eqb_ℤ t.decimals token.decimals)
      then false
      else true

  abbrev pub token_members : TokenCore Address → Members
  token_members t = members (
      (codes "Address", text (hex t.address))
      ∷ (codes "Symbol", text t.symbol)
      ∷ (codes "Decimals", number t.decimals)
      ∷ [])

  -- the text that MarshalJSON returns is a document in a document
  unfoldable pub marshal_json : TokenCore Address → Json
  marshal_json t = object (token_members t)

  -- `aux` of UnmarshalJSON: the text of the address beside the token
  abbrev pub token_fields : List (Field (Bytes × TokenCore Address))
  token_fields =
      (record { name = codes "Address"; set = λ v x. bind (read_text v x.0) (λ s. ok (s, x.1)) })
      ∷ (record {
        name = codes "Symbol";
        set = λ v x. bind (read_text v x.1.symbol) (λ s. ok (x.0, record x.1 { symbol = s }));
      })
      ∷ (record {
        name = codes "Decimals";
        set = λ v x. bind (read_int 7 v x.1.decimals) (λ z. ok (x.0, record x.1 { decimals = z }));
      })
      ∷ []

  -- null makes the pointer `aux` nil, which is then followed
  unfoldable pub unmarshal_json : Json → TokenCore Address → Result (TokenCore Address)
  unmarshal_json null t = panic
  unmarshal_json v t =
      bind (read_struct json.fold_name token_fields v ([], t))
        (λ aux. ok (record aux.1 { address = from_hex aux.0 }))

  abbrev pub new_token : TokenCore Address
  new_token = record { address = from_hex []; symbol = []; decimals = pos 0 }

  abbrev pub pointer_json : Option (TokenCore Address) → Json
  unfolding marshal_json
  pointer_json none = null
  pointer_json (some t) = marshal_json t

  abbrev pub ThisPair : Type 0
  ThisPair = Pair Address Decimal Time

  abbrev pub pair_members : ThisPair → Json → Json → Members
  pair_members p block_at timestamp = members (
      (codes "Address", text (hex p.address))
      ∷ (codes "TokensReversed", bool p.tokens_reversed)
      ∷ (codes "Token0Core", pointer_json p.token0_core)
      ∷ (codes "Token1Core", pointer_json p.token1_core)
      ∷ (codes "Token0InitAmount", decimal_json p.token0_init_amount)
      ∷ (codes "Token1InitAmount", decimal_json p.token1_init_amount)
      ∷ (codes "Block", number (pos p.block))
      ∷ (codes "BlockAt", block_at)
      ∷ (codes "ProtocolId", number p.protocol_id)
      ∷ (codes "Filtered", bool p.filtered)
      ∷ (codes "FilterCode", number p.filter_code)
      ∷ (codes "Timestamp", timestamp)
      ∷ [])

  unfoldable pub marshal_binary : ThisPair → Result Bytes
  marshal_binary p = bind (time_json p.block_at) λ block_at.
      bind (time_json p.timestamp)
        λ timestamp. ok (json.marshal (object (pair_members p block_at timestamp)))

  -- `aux` of UnmarshalBinary: the text of the address beside the pair
  unfoldable pub pair_fields : List (Field (Bytes × ThisPair))
  unfolding unmarshal_json
  pair_fields =
      (record { name = codes "Address"; set = λ v x. bind (read_text v x.0) (λ s. ok (s, x.1)) })
      ∷ (record {
        name = codes "TokensReversed";
        set = λ v x.
            bind (read_bool v x.1.tokens_reversed)
              (λ y. ok (x.0, record x.1 { tokens_reversed = y }));
      })
      ∷ (record {
        name = codes "Token0Core";
        set = λ v x.
            bind (read_pointer unmarshal_json new_token v x.1.token0_core)
              (λ y. ok (x.0, record x.1 { token0_core = y }));
      })
      ∷ (record {
        name = codes "Token1Core";
        set = λ v x.
            bind (read_pointer unmarshal_json new_token v x.1.token1_core)
              (λ y. ok (x.0, record x.1 { token1_core = y }));
      })
      ∷ (record {
        name = codes "Token0InitAmount";
        set = λ v x.
            bind (read_decimal v x.1.token0_init_amount)
              (λ y. ok (x.0, record x.1 { token0_init_amount = y }));
      })
      ∷ (record {
        name = codes "Token1InitAmount";
        set = λ v x.
            bind (read_decimal v x.1.token1_init_amount)
              (λ y. ok (x.0, record x.1 { token1_init_amount = y }));
      })
      ∷ (record {
        name = codes "Block";
        set = λ v x. bind (read_uint64 v x.1.block) (λ y. ok (x.0, record x.1 { block = y }));
      })
      ∷ (record {
        name = codes "BlockAt";
        set = λ v x. bind (read_time v x.1.block_at) (λ y. ok (x.0, record x.1 { block_at = y }));
      })
      ∷ (record {
        name = codes "ProtocolId";
        set = λ v x.
            bind (read_int 63 v x.1.protocol_id) (λ y. ok (x.0, record x.1 { protocol_id = y }));
      })
      ∷ (record {
        name = codes "Filtered";
        set = λ v x. bind (read_bool v x.1.filtered) (λ y. ok (x.0, record x.1 { filtered = y }));
      })
      ∷ (record {
        name = codes "FilterCode";
        set = λ v x.
            bind (read_int 63 v x.1.filter_code) (λ y. ok (x.0, record x.1 { filter_code = y }));
      })
      ∷ (record {
        name = codes "Timestamp";
        set = λ v x. bind (read_time v x.1.timestamp) (λ y. ok (x.0, record x.1 { timestamp = y }));
      })
      ∷ []

  -- null makes the pointer `aux` nil, which is then followed
  unfoldable pub read_pair : Json → ThisPair → Result ThisPair
  unfolding pair_fields
  read_pair null p = panic
  read_pair v p =
      bind (read_struct json.fold_name pair_fields v ([], p))
        (λ aux. ok (record aux.1 { address = from_hex aux.0 }))

  unfoldable pub unmarshal_binary : Bytes → ThisPair → Result ThisPair
  unfolding read_pair
  unmarshal_binary bs p = bind (json.unmarshal bs) (λ v. read_pair v p)
