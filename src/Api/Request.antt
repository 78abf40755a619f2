-- ===== src/Api/Request.antt =====
-- From the query of a request to its parameters: parseParams and FromHttpRequest.
use uniswapv3_tick_state.Prelude.{
  ℕ, ◌+◌, ◌-◌, ◌*◌, ◌^◌, ◌&&◌, Option, none, some, List, [], ◌∷◌, ltb, leb, if◌then◌else◌,
}
use uniswapv3_tick_state.Bytes.{Bytes, codes, bytes_eqb}
use uniswapv3_tick_state.Api.{PoolStateParams, arrange}

-- r.URL.Query().Get: the value of a parameter, empty without one.
abbrev pub Query : Type 0
Query = Bytes → Bytes

-- Why a request is refused: a parameter is missing, or the offset is no number.
pub data ParamError : Type 0 where
  required : Bytes → ParamError
  not_a_number : ParamError

pub data Parsed {ℓ} (A : Type ℓ) : Type ℓ where
  parsed : A → Parsed A
  wrong : ParamError → Parsed A

abbrev pub param_address : Bytes
param_address = codes "address"

abbrev pub param_tick_offset : Bytes
param_tick_offset = codes "tick_offset"

abbrev pub param_type : Bytes
param_type = codes "type"

abbrev pub param_format : Bytes
param_format = codes "format"

abbrev pub param_list : List Bytes
param_list = param_address ∷ param_tick_offset ∷ param_type ∷ param_format ∷ []

unfoldable pub parse_params : Query → List Bytes → Parsed (List (Bytes × Bytes))
parse_params query [] = parsed []
parse_params query (param ∷ params) =
    if bytes_eqb (query param) []
    then wrong (required param)
    else elim (parse_params query params) [
      | parsed kv ↦ parsed ((param, query param) ∷ kv)
      | wrong e ↦ wrong e
    ]

-- kv[param]
abbrev pub param_value : List (Bytes × Bytes) → Bytes → Bytes
param_value [] param = []
param_value ((k, v) ∷ kv) param = if bytes_eqb k param then v else param_value kv param

-- strconv.ParseUint(s, 10, 32): decimal digits, and no more than 32 bits.
abbrev pub digit : ℕ → Option ℕ
digit c = if leb b'0' c && leb c b'9' then some (c - b'0') else none

unfoldable pub digits : ℕ → Bytes → Option ℕ
digits n [] = some n
digits n (c ∷ cs) = elim (digit c) [ none ↦ none | some d ↦ digits (n * 10 + d) cs ]

unfoldable pub parse_uint32 : Bytes → Option ℕ
unfolding digits
parse_uint32 [] = none
parse_uint32 (c ∷ cs) = elim (digits 0 (c ∷ cs)) [
  | none ↦ none
  | some n ↦ if ltb n (2 ^ 32) then some n else none
]

module _ {Address : Type 0} (hex_to_address : Bytes → Address) where
  abbrev pub params_of : List (Bytes × Bytes) → Parsed (PoolStateParams Address)
  params_of kv = elim (parse_uint32 (param_value kv param_tick_offset)) [
    | none ↦ wrong not_a_number
    | some tick_offset ↦ parsed (
        arrange (record {
          address = hex_to_address (param_value kv param_address);
          tick_offset = tick_offset;
          type = param_value kv param_type;
          format = param_value kv param_format;
        }))
  ]

  unfoldable pub from_http_request : Query → Parsed (PoolStateParams Address)
  unfolding parse_params
  from_http_request query = elim (parse_params query param_list) [
    | wrong e ↦ wrong e
    | parsed kv ↦ params_of kv
  ]
