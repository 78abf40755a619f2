-- ===== src/Api/Params.antt =====
-- What the parameters of a request are, whatever the query.
use mathlib.Core.Path.{subst}
use uniswapv3_tick_state.Prelude.{
  ℕ, ◌^◌, ◌<◌, ◌≡◌, refl, ◌⊎◌, inl, inr, not, ◌&&◌, none, some, List, [], ◌∷◌, ltb, if◌then◌else◌,
  Bool-cases, Option-cases, arith,
}
use uniswapv3_tick_state.Bytes.{Bytes, bytes_eqb}
use uniswapv3_tick_state.Bytes.Order.{bytes_eqb→eq}
use uniswapv3_tick_state.Api.{
  PoolStateParams, param_type_liquidity, param_type_token_amount, param_type_token_amount_detail,
  json, html, arrange_type, arrange_format, arrange,
}
use uniswapv3_tick_state.Api.Request.{
  Query, ParamError, Parsed, parsed, wrong, param_list, param_tick_offset, parse_params,
  param_value, digits, parse_uint32, params_of, from_http_request,
}

-- The pool alone is given as JSON; amounts are given as JSON or as a page.
abbrev pub IsFormatOf : Bytes → Bytes → Type 0
IsFormatOf type format =
    ((type ≡ param_type_liquidity) × (format ≡ json))
    ⊎ (((type ≡ param_type_token_amount) ⊎ (type ≡ param_type_token_amount_detail))
        × ((format ≡ json) ⊎ (format ≡ html)))

pub record IsArranged {Address : Type 0} (p : PoolStateParams Address) : Type 0 where
  pub output : IsFormatOf p.type p.format
  pub offset_pos : 0 < p.tick_offset
  pub offset_lt : p.tick_offset < 2 ^ 32

format_known :
    (b : Bytes)
    → ((if not (bytes_eqb b json) && not (bytes_eqb b html) then json else b) ≡ json)
      ⊎ ((if not (bytes_eqb b json) && not (bytes_eqb b html) then json else b) ≡ html)
format_known b = elim (Bool-cases (bytes_eqb b json)) [
  | inl is_json ↦ inl (rw is_json (bytes_eqb→eq b json is_json))
  | inr no_json ↦ elim (Bool-cases (bytes_eqb b html)) [
    | inl is_html ↦ inr (rw (no_json, is_html) (bytes_eqb→eq b html is_html))
    | inr no_html ↦ inl (rw (no_json, no_html) refl)
  ]
]

abbrev IsKnown : Bytes → Type 0
IsKnown type =
    (type ≡ param_type_liquidity)
    ⊎ ((type ≡ param_type_token_amount) ⊎ (type ≡ param_type_token_amount_detail))

type-IsKnown : (b : Bytes) → IsKnown (arrange_type b)
type-IsKnown b = elim (Bool-cases (bytes_eqb b param_type_liquidity)) [
  | inl is_1 ↦ inl (rw is_1 (bytes_eqb→eq b param_type_liquidity is_1))
  | inr no_1 ↦ elim (Bool-cases (bytes_eqb b param_type_token_amount)) [
    | inl is_2 ↦ inr (inl (rw (no_1, is_2) (bytes_eqb→eq b param_type_token_amount is_2)))
    | inr no_2 ↦ elim (Bool-cases (bytes_eqb b param_type_token_amount_detail)) [
      | inl is_3 ↦
          inr (inr (rw (no_1, no_2, is_3) (bytes_eqb→eq b param_type_token_amount_detail is_3)))
      | inr no_3 ↦ inl (rw (no_1, no_2, no_3) refl)
    ]
  ]
]

output_of : (type format : Bytes) → IsKnown type → IsFormatOf type (arrange_format type format)
unfolding bytes_eqb
output_of type format (inl is_1) = inl (is_1, rw is_1 refl)
output_of type format (inr (inl is_2)) = inr (inl is_2, rw is_2 (format_known format))
output_of type format (inr (inr is_3)) = inr (inr is_3, rw is_3 (format_known format))

arrange-IsArranged :
    {Address : Type 0} (p : PoolStateParams Address)
    → p.tick_offset < 2 ^ 32
    → IsArranged (arrange p)
unfolding arrange
arrange-IsArranged p lt = record {
  output = output_of (arrange_type p.type) p.format (type-IsKnown p.type);
  offset_pos = ground arith;
  offset_lt = ground arith;
}

parse_uint32-lt : (b : Bytes) (n : ℕ) → parse_uint32 b ≡ some n → n < 2 ^ 32
unfolding parse_uint32
parse_uint32-lt [] n h = cc
parse_uint32-lt (c ∷ cs) n h = elim (Option-cases (digits 0 (c ∷ cs))) [
  | inl none_read ↦ cc (rw (parse_uint32, none_read) at h)
  | inr (m, read) ↦
      let small : (if ltb m (2 ^ 32) then some m else none) ≡ some n =
        rw (parse_uint32, read) at h in
      ground arith
]

Parsed-cases :
    {A : Type 0} (r : Parsed A) → ((e : ParamError) × (r ≡ wrong e)) ⊎ ((a : A) × (r ≡ parsed a))
Parsed-cases (wrong e) = inl (e, refl)
Parsed-cases (parsed a) = inr (a, refl)

parsed_injective : {A : Type 0} {a b : A} → parsed a ≡ parsed b → a ≡ b
parsed_injective h = cc

module _ {Address : Type 0} (hex_to_address : Bytes → Address) where
  params_of-IsArranged :
      (kv : List (Bytes × Bytes)) (p : PoolStateParams Address)
      → params_of hex_to_address kv ≡ parsed p
      → IsArranged p
  params_of-IsArranged kv p h =
      elim (Option-cases (parse_uint32 (param_value kv param_tick_offset))) [
        | inl no_number ↦ absurd (cc (rw (params_of, no_number) at h))
        | inr (n, read) ↦
            subst IsArranged (parsed_injective (rw (params_of, read) at h))
              (arrange-IsArranged _ (parse_uint32-lt _ n read))
      ]

  -- Whatever the query of a request, parameters that pass are well formed: the type is one of the
  -- three, the format belongs to the type, and the offset is positive and has 32 bits.
  pub from_http_request-IsArranged :
      (query : Query) (p : PoolStateParams Address)
      → from_http_request hex_to_address query ≡ parsed p
      → IsArranged p
  unfolding from_http_request
  from_http_request-IsArranged query p h = elim (Parsed-cases (parse_params query param_list)) [
    | inl (e, missing) ↦ absurd (cc (rw (from_http_request, missing) at h))
    | inr (kv, read) ↦ params_of-IsArranged kv p (rw (from_http_request, read) at h)
  ]
