-- ===== src/Api/Handler.antt =====
-- HandlerPoolState: from a request to the response.
use uniswapv3_tick_state.Prelude.{
  ℕ, Bool, ◌||◌, Option, none, some, List, [], to_int32, if◌then◌else◌,
}
use uniswapv3_tick_state.Result.{Error, Result, ok, err, panic, bind, Action}
use uniswapv3_tick_state.Bytes.{Bytes, codes, bytes_eqb}
use uniswapv3_tick_state.Types.{Token, PoolState, big_int64, uint64_of_int64}
use uniswapv3_tick_state.Liquidity.{RangeLiquidity, RangeAmount, FloatOps, calc_range_amount_array}
use uniswapv3_tick_state.ChartRender.{ChartOps, render_range_amount_array_chart}
use uniswapv3_tick_state.Api.{
  PoolStateParams, param_type_liquidity, param_type_token_amount, param_type_token_amount_detail,
  json, ranges_of,
}
use uniswapv3_tick_state.Api.Request.{Query, ParamError, parsed, wrong, from_http_request}

-- The texts of errors are left as the errors.
pub data Body : Type 0 where
  wrong_request_params : ParamError → Body
  get_pool_states_error : Error → Body
  render_error : Body
  content : Bytes → Body
  nothing : Body

pub record Response : Type 0 where
  pub status : ℕ
  pub content_type : Option Bytes
  pub body : Body

abbrev pub bad_request : ParamError → Response
bad_request e = record { status = 400; content_type = none; body = wrong_request_params e }

abbrev pub server_error : Body → Response
server_error b = record { status = 500; content_type = none; body = b }

abbrev pub answer : Bytes → Bytes → Response
answer type b = record { status = 200; content_type = some type; body = content b }

abbrev pub application_json : Bytes
application_json = codes "application/json"

abbrev pub text_html : Bytes
text_html = codes "text/html"

-- jsonData, _ := …
abbrev pub or_empty : Result Bytes → Result Bytes
or_empty (ok b) = ok b
or_empty (err e) = ok []
or_empty panic = panic

-- A token that is read through a nil pointer.
abbrev pub with_token {ℓ} : {A : Type ℓ} → Option Token → (Token → Result A) → Result A
with_token none f = panic
with_token (some token) f = f token

-- `pool_json` is (*PoolState).Json, and `fuel` bounds the rounds of splitting one range; without
-- enough of it there is no response.
module _ (f : FloatOps) (ops : ChartOps f.Float) (pool_json : PoolState → Bytes) (fuel : ℕ) where
  open f use {Float}

  abbrev pub amounts_of : PoolState → List RangeLiquidity → Result (List (RangeAmount Float))
  amounts_of p ranges = with_token p.token0 λ token0.
      with_token p.token1
        λ token1. ok (calc_range_amount_array f ranges token0.decimals token1.decimals)

  abbrev pub chart_response : Result Bytes → Result Response
  chart_response (ok html_str) = ok (answer text_html html_str)
  chart_response (err e) = ok (server_error render_error)
  chart_response panic = panic

  abbrev pub json_response : List (RangeAmount Float) → Result Response
  json_response amounts =
      bind (or_empty (ops.marshal amounts)) λ json_data. ok (answer application_json json_data)

  abbrev pub html_response : PoolState → List (RangeAmount Float) → Result Response
  html_response p amounts = with_token p.token0 λ token0. with_token p.token1 λ token1.
      chart_response (
        render_range_amount_array_chart ops amounts (to_int32 (big_int64 p.global.tick))
          (to_int32 (big_int64 p.global.tick_spacing)) (uint64_of_int64 (big_int64 p.global.height))
          token0.symbol token1.symbol)

  -- of the ranges, or of none where the fuel was not enough
  abbrev pub respond_ranges :
      Bool → PoolState → Option (List RangeLiquidity) → Result (Option Response)
  respond_ranges as_json p none = ok none
  respond_ranges as_json p (some ranges) = bind (amounts_of p ranges) λ amounts.
      bind (if as_json then json_response amounts else html_response p amounts)
        λ response. ok (some response)

  unfoldable pub respond_amounts :
      {Address : Type 0} → PoolStateParams Address → PoolState → Result (Option Response)
  respond_amounts params p =
      bind
        (ranges_of fuel (bytes_eqb params.type param_type_token_amount_detail) params.tick_offset p)
        (respond_ranges (bytes_eqb params.format json) p)

  -- the switch of the handler
  unfoldable pub respond :
      {Address : Type 0} → PoolStateParams Address → PoolState → Result (Option Response)
  unfolding respond_amounts
  respond params p =
      if bytes_eqb params.type param_type_liquidity
      then ok (some (answer application_json (pool_json p)))
      else if bytes_eqb params.type param_type_token_amount
          || bytes_eqb params.type param_type_token_amount_detail
      then respond_amounts params p
      else ok (some (record { status = 200; content_type = none; body = nothing }))

  module _ {Address S : Type 0} (hex_to_address : Bytes → Address)
      (get_pool_state : Address → Action S PoolState) where
    abbrev pub respond_to : PoolStateParams Address → Result PoolState → Result (Option Response)
    respond_to params (ok p) = respond params p
    respond_to params (err e) = ok (some (server_error (get_pool_states_error e)))
    respond_to params panic = panic

    unfoldable pub handler_pool_state : Query → Action S (Option Response)
    handler_pool_state query s = elim (from_http_request hex_to_address query) [
      | wrong e ↦ (ok (some (bad_request e)), s)
      | parsed params ↦ (
        respond_to params (get_pool_state params.address s).0,
        (get_pool_state params.address s).1,
      )
    ]
