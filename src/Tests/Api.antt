-- ===== src/Tests/Api.antt =====
-- A request for the tokens in a window around tick 3.
use uniswapv3_tick_state.Prelude.{
  ℕ, ◌+ℤ◌, ◌*◌, if◌then◌else◌, ◌≡◌, refl, true, false, Option, none, some, List, [], ◌∷◌, ℤ, pos,
  negsuc, to_int32, ◌<ℤ◌, ◌≤ℤ◌, arith, All,
}
use uniswapv3_tick_state.Result.{ok}
use uniswapv3_tick_state.Types.{Token, PoolState, big_int64}
use uniswapv3_tick_state.Bytes.{Bytes, codes, bytes_eqb}
use uniswapv3_tick_state.Liquidity.{RangeAmount, FloatOps}
use uniswapv3_tick_state.Liquidity.Bounds.{Centred, calculate_tick_range_lem}
use uniswapv3_tick_state.ChartRender.{ChartOps}
use uniswapv3_tick_state.Api.{param_type_liquidity, json, html, arrange}
use uniswapv3_tick_state.Api.Request.{
  Query, param_tick_offset, digits, parse_uint32, parse_params, from_http_request,
}
use uniswapv3_tick_state.Api.Params.{IsArranged, from_http_request-IsArranged}
use uniswapv3_tick_state.Api.Handler.{answer, application_json, handler_pool_state}
use uniswapv3_tick_state.Api.Answers.{AmountsOf, seen, asks, handler_pool_state-json}
use uniswapv3_tick_state.DbWrap.Pools.{pool}
use uniswapv3_tick_state.Liquidity.{
  RangeAmount, RangeLiquidity, calculate_tick_range, build_range_liquidity_array,
  filter_range_liquidity_array,
}
use uniswapv3_tick_state.Liquidity.Ranges.{liquidity_in}
use uniswapv3_tick_state.Liquidity.Split.{Splits}
use uniswapv3_tick_state.Api.{ranges_of}
use uniswapv3_tick_state.Api.Window.{pool_liquidity, ranges_of_lem, ranges_of-detail}
use uniswapv3_tick_state.Tests.Ranges.{ticks}

abbrev at_3 : PoolState
at_3 = pool none none 100 (pos 10) (pos 3) ticks

window :
    calculate_tick_range
      (to_int32 (big_int64 (pos 3)))
      (to_int32 (pos 1))
      (to_int32 (big_int64 (pos 10)))
    ≡ ok (negsuc 9, pos 20)
unfolding calculate_tick_range to_int32 big_int64 uniswapv3_tick_state.Prelude.◌-ℤ◌
    uniswapv3_tick_state.Prelude.◌+ℤ◌ uniswapv3_tick_state.Prelude.◌*ℤ◌
window = refl

ranges_of_lem_example :
    (rs : List RangeLiquidity) × (ranges_of 100 false 1 at_3 ≡ ok (some rs))
    × (liquidity_in (pos 5) rs ≡ pool_liquidity (pos 5) at_3)
ranges_of_lem_example =
    ranges_of_lem 100 1 at_3 (negsuc 9) (pos 20) window (omega arith, (omega arith, tt)) (pos 5)
      (omega arith) (omega arith)

positive_spacing : pos 0 <ℤ to_int32 (big_int64 (pos 10))
unfolding to_int32 big_int64
positive_spacing = omega arith

room :
    All
      (Splits 100 (to_int32 (big_int64 (pos 10))))
      (filter_range_liquidity_array (build_range_liquidity_array ticks) (negsuc 9) (pos 20))
unfolding filter_range_liquidity_array build_range_liquidity_array to_int32 big_int64
    uniswapv3_tick_state.Prelude.◌+ℤ◌
room = ((omega arith, omega arith, omega arith), ((omega arith, omega arith, omega arith), tt))

ranges_of-detail_example :
    (rs : List RangeLiquidity) × (ranges_of 100 true 1 at_3 ≡ ok (some rs))
    × (liquidity_in (pos 5) rs ≡ pool_liquidity (pos 5) at_3)
ranges_of-detail_example =
    ranges_of-detail 100 1 at_3 (negsuc 9) (pos 20) window (omega arith, (omega arith, tt)) (pos 5)
      (omega arith) (omega arith) positive_spacing room

calculate_tick_range_lem_example :
    (from_tick to_tick : ℤ) × (calculate_tick_range (negsuc 6) (to_int32 (pos 10)) (pos 60)
      ≡ ok (from_tick, to_tick))
    × (from_tick ≤ℤ negsuc 6)
    × (negsuc 6 <ℤ to_tick)
    × (to_tick ≡ from_tick +ℤ pos (21 * 60))
    × Centred (negsuc 6) (from_tick +ℤ pos (10 * 60)) 60
calculate_tick_range_lem_example =
    calculate_tick_range_lem (negsuc 6) 10 60 (omega arith) (omega arith) (omega arith)
      (omega arith) (omega arith)

-- A query without a known type and format.
abbrev odd_query : Query
odd_query param = if bytes_eqb param param_tick_offset then codes "0" else codes "x"

abbrev hex_to_address : Bytes → ℕ
hex_to_address b = 7

from_http_request-IsArranged_example :
    IsArranged {Address = ℕ}
      (record { address = 7; tick_offset = 10; type = param_type_liquidity; format = json })
unfolding from_http_request parse_params parse_uint32 digits arrange bytes_eqb
from_http_request-IsArranged_example = from_http_request-IsArranged hex_to_address odd_query _ refl

-- Amounts that are all 0, since the floats are a parameter.
abbrev no_floats : FloatOps
no_floats = record {
  Float = Unit;
  of_int = λ n. tt;
  pow_half = λ n. tt;
  pow10 = λ n. tt;
  mul = λ a b. tt;
  sub = λ a b. tt;
  quo = λ a b. tt;
}

abbrev no_chart : ChartOps Unit
no_chart = record { marshal = λ amounts. ok json; price = λ n. []; execute = λ d. ok html }

abbrev coin : Token
coin = record { symbol = codes "C"; decimals = pos 18 }

abbrev coins_at_3 : PoolState
coins_at_3 = pool (some coin) (some coin) 100 (pos 10) (pos 3) ticks

offset_read : parse_uint32 (codes "1") ≡ some 1
unfolding parse_uint32 digits
offset_read = refl

address_given : bytes_eqb (codes "0x07") [] ≡ false
unfolding bytes_eqb
address_given = refl

handler_pool_state-json_example :
    (from_tick to_tick : ℤ) × (ranges : List RangeLiquidity) × (amounts : List
      (RangeAmount (FloatOps.Float no_floats)))
    × (json_data : Bytes) × (handler_pool_state no_floats no_chart
          (λ p. [])
          100
          hex_to_address
          (λ a s. (ok coins_at_3, s))
          (asks (codes "0x07") (codes "1"))
          tt
        ≡ (ok (some (answer application_json json_data)), tt))
    × (no_chart.marshal amounts ≡ ok json_data)
    × AmountsOf no_floats (pos 18) (pos 18) ranges amounts
    × All (λ r. (from_tick <ℤ r.tick_upper) × (r.tick_lower <ℤ to_tick)) ranges
    × (from_tick ≤ℤ pos 3)
    × (pos 3 <ℤ to_tick)
    × (to_tick ≡ from_tick +ℤ pos (3 * 10))
    × ((n : ℤ)
        → seen from_tick to_tick n (liquidity_in n ranges)
          ≡ seen from_tick to_tick n (pool_liquidity n coins_at_3))
handler_pool_state-json_example =
    handler_pool_state-json no_floats no_chart (λ p. []) 100 hex_to_address
      (λ a s. (ok coins_at_3, s)) (codes "0x07") (codes "1") 1 10 coins_at_3 coin coin tt tt
      address_given offset_read (omega arith) (omega arith) (omega arith) refl refl refl refl
      (omega arith) (omega arith) (omega arith, (omega arith, tt)) (λ amounts. (json, refl))
