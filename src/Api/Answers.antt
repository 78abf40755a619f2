-- ===== src/Api/Answers.antt =====
-- How the handler answers.
use uniswapv3_tick_state.Prelude.{
  ℕ, ◌+◌, ◌*◌, ◌^◌, ◌<◌, ◌≡◌, refl, ap, ◌∙◌, inl, inr, false, not, ◌&&◌, Option, none, some, List,
  ℤ, pos, ◌≤ℤ◌, ◌<ℤ◌, ◌+ℤ◌, ltb_ℤ, ltb_ℤ→lt, ltb_ℤ→le, Bool-cases, to_int32, to_int32_self, IsInt32,
  ◌==◌, if◌then◌else◌, All, arith,
}
use uniswapv3_tick_state.Result.{ok, Action}
use uniswapv3_tick_state.Bytes.{Bytes, bytes_eqb}
use uniswapv3_tick_state.Types.{Token, PoolState, big_int64, big_int64_self}
use uniswapv3_tick_state.TickKey.{min_tick, max_tick}
use uniswapv3_tick_state.Db.Contract.{Ascend}
use uniswapv3_tick_state.Liquidity.{
  RangeLiquidity, RangeAmount, FloatOps, calc_range_amount_array, build_range_liquidity_array,
  filter_range_liquidity_array, calculate_tick_range,
}
use uniswapv3_tick_state.Liquidity.Ranges.{liquidity_in}
use uniswapv3_tick_state.Liquidity.Build.{liquidity_in-build}
use uniswapv3_tick_state.Liquidity.Filter.{liquidity_in-filter, filter_reaches}
use uniswapv3_tick_state.Liquidity.Bounds.{calculate_tick_range_lem}
use uniswapv3_tick_state.ChartRender.{ChartOps}
use uniswapv3_tick_state.Api.{PoolStateParams, param_type_token_amount, json, arrange, ranges_of}
use uniswapv3_tick_state.Api.Window.{pool_liquidity}
use uniswapv3_tick_state.Api.Request.{
  Query, parsed, param_address, param_tick_offset, param_type, param_format, parse_params,
  parse_uint32, params_of, from_http_request,
}
use uniswapv3_tick_state.Api.Handler.{
  answer, application_json, respond, respond_amounts, handler_pool_state,
}

-- What a range of liquidity holds of the two tokens, as the comment of CalcRangeAmount has it, with
-- the square roots of the prices at its ends as 96-bit fixed-point numbers, in units of the tokens.
module _ (f : FloatOps) where
  open f use {Float, of_int, pow_half, pow10, mul, sub, quo}

  abbrev q96 : Float
  q96 = of_int (pos (2 ^ 96))

  abbrev sqrt_at : ℤ → Float
  sqrt_at tick = mul (pow_half tick) q96

  abbrev pub IsAmountOf : ℤ → ℤ → RangeLiquidity → RangeAmount Float → Type 0
  IsAmountOf decimals0 decimals1 r a =
      let width = sub (sqrt_at r.tick_upper) (sqrt_at r.tick_lower) in
      (a.tick_lower ≡ r.tick_lower)
      × (a.tick_upper ≡ r.tick_upper)
      × (a.liquidity ≡ r.liquidity)
      × (a.amount0
          ≡ quo
              (quo (quo (mul (mul (of_int r.liquidity) q96) width) (sqrt_at r.tick_upper))
                (sqrt_at r.tick_lower))
              (pow10 decimals0))
      × (a.amount1 ≡ quo (quo (mul (of_int r.liquidity) width) q96) (pow10 decimals1))

  -- One for each range, in order.
  abbrev pub AmountsOf : ℤ → ℤ → List RangeLiquidity → List (RangeAmount Float) → Type 0
  AmountsOf decimals0 decimals1 List.[] List.[] = Unit
  AmountsOf decimals0 decimals1 (List.◌∷◌ r rs) (List.◌∷◌ a amounts) =
      IsAmountOf decimals0 decimals1 r a × AmountsOf decimals0 decimals1 rs amounts
  AmountsOf decimals0 decimals1 _ _ = ⊥

  calc_range_amount_array-AmountsOf :
      (rs : List RangeLiquidity) (decimals0 decimals1 : ℤ)
      → AmountsOf decimals0 decimals1 rs (calc_range_amount_array f rs decimals0 decimals1)
  unfolding calc_range_amount_array
  calc_range_amount_array-AmountsOf List.[] decimals0 decimals1 = tt
  calc_range_amount_array-AmountsOf (List.◌∷◌ r rs) decimals0 decimals1 =
      ((refl, refl, refl, refl, refl), calc_range_amount_array-AmountsOf rs decimals0 decimals1)

-- What is seen through a window.
abbrev pub seen : ℤ → ℤ → ℤ → Option ℤ → Option ℤ
seen from_tick to_tick n x = if not (ltb_ℤ n from_tick) && ltb_ℤ n to_tick then x else none

-- A request for a pool's token amounts as JSON.
abbrev pub asks : Bytes → Bytes → Query
asks address offset param =
    if bytes_eqb param param_address
    then address
    else if bytes_eqb param param_tick_offset
    then offset
    else if bytes_eqb param param_type
    then param_type_token_amount
    else if bytes_eqb param param_format
    then json
    else List.[]

seen-same :
    (from_tick to_tick n : ℤ) (x y : Option ℤ)
    → (from_tick ≤ℤ n → n <ℤ to_tick → x ≡ y)
    → seen from_tick to_tick n x ≡ seen from_tick to_tick n y
seen-same from_tick to_tick n x y h = elim (Bool-cases (ltb_ℤ n from_tick)) [
  | inl before ↦ rw before refl
  | inr not_before ↦ elim (Bool-cases (ltb_ℤ n to_tick)) [
    | inl below ↦
        rw (not_before, below) (h (ltb_ℤ→le n from_tick not_before) (ltb_ℤ→lt n to_tick below))
    | inr above ↦ rw (not_before, above) refl
  ]
]

-- The parameters of such a request.
abbrev wanted : {Address : Type 0} → Address → ℕ → PoolStateParams Address
wanted a offset = record {
  address = a;
  tick_offset = offset;
  type = param_type_token_amount;
  format = json;
}

no_number : (n : ℕ) → parse_uint32 List.[] ≡ some n → ⊥
unfolding parse_uint32
no_number n h = cc

asks-wanted :
    {Address : Type 0} (hex_to_address : Bytes → Address) (address offset_text : Bytes) (offset : ℕ)
    → bytes_eqb address List.[] ≡ false
    → parse_uint32 offset_text ≡ some offset
    → 0 < offset
    → from_http_request hex_to_address (asks address offset_text)
      ≡ parsed (wanted (hex_to_address address) offset)
unfolding from_http_request parse_params bytes_eqb arrange
asks-wanted hex List.[] text offset given number pos_o = cc
asks-wanted hex (List.◌∷◌ a address) List.[] offset given number pos_o =
    absurd (no_number offset number)
asks-wanted hex (List.◌∷◌ a address) (List.◌∷◌ c text) offset given number pos_o =
    let kept : (if offset == 0 then 10 else offset) ≡ offset = ground arith in
    rw (params_of, number, kept) refl

int32_of_big : (z : ℤ) → IsInt32 z → to_int32 (big_int64 z) ≡ z
int32_of_big z int = ap to_int32 (big_int64_self z int) ∙ to_int32_self z int

module _ (f : FloatOps) (ops : ChartOps f.Float) (pool_json : PoolState → Bytes) (fuel : ℕ)
    {Address S : Type 0} (hex_to_address : Bytes → Address)
    (get_pool_state : Address → Action S PoolState) where
  respond-json :
      (a : Address) (offset : ℕ) (p : PoolState) (token0 token1 : Token)
      (ranges : List RangeLiquidity) (json_data : Bytes)
      → p.token0 ≡ some token0
      → p.token1 ≡ some token1
      → ranges_of fuel false offset p ≡ ok (some ranges)
      → ops.marshal (calc_range_amount_array f ranges token0.decimals token1.decimals)
        ≡ ok json_data
      → respond f ops pool_json fuel (wanted a offset) p
        ≡ ok (some (answer application_json json_data))
  unfolding respond respond_amounts bytes_eqb
  respond-json a offset p token0 token1 ranges json_data t0 t1 found marshalled =
      rw (found, t0, t1, marshalled) refl

  ranges-found :
      (offset spacing : ℕ) (p : PoolState) (from_tick to_tick : ℤ)
      → p.global.tick_spacing ≡ pos spacing
      → spacing < 2 ^ 31
      → min_tick ≤ℤ p.global.tick
      → p.global.tick ≤ℤ max_tick
      → calculate_tick_range p.global.tick (to_int32 (pos offset)) (pos spacing)
        ≡ ok (from_tick, to_tick)
      → ranges_of fuel false offset p
        ≡ ok (
            some (
              filter_range_liquidity_array
                (build_range_liquidity_array p.tick_states)
                from_tick
                to_tick))
  unfolding ranges_of
  ranges-found offset spacing p from_tick to_tick sp small lo hi window =
      let tick : to_int32 (big_int64 p.global.tick) ≡ p.global.tick =
        int32_of_big p.global.tick (omega arith, omega arith) in
      let step : to_int32 (big_int64 p.global.tick_spacing) ≡ pos spacing =
        rw sp (int32_of_big (pos spacing) (omega arith, omega arith)) in
      rw (tick, step, window) refl

  -- A request for the token amounts of a pool as JSON, whose address is given and whose offset is a
  -- number, positive, and such that the window fits int32 around any tick; for a pool that the
  -- getter returns with its tokens, ascending ticks, a positive spacing and a tick in its bounds: the
  -- answer has status 200 and lists, for each of some ranges, what its liquidity holds of the two
  -- tokens. The ranges show, through a window of 2 offset + 1 spacings with the current tick in it, the
  -- liquidity of the pool at every tick, and each of them reaches into the window.
  pub handler_pool_state-json :
      (address offset_text : Bytes) (offset spacing : ℕ) (p : PoolState) (token0 token1 : Token)
      (s s' : S)
      → bytes_eqb address List.[] ≡ false
      → parse_uint32 offset_text ≡ some offset
      → 0 < offset
      → 0 < spacing
      → (offset + 1) * spacing + 887272 < 2 ^ 31
      → get_pool_state (hex_to_address address) s ≡ (ok p, s')
      → p.token0 ≡ some token0
      → p.token1 ≡ some token1
      → p.global.tick_spacing ≡ pos spacing
      → min_tick ≤ℤ p.global.tick
      → p.global.tick ≤ℤ max_tick
      → Ascend p.tick_states
      → ((amounts : List (RangeAmount f.Float))
          → (json_data : Bytes) × (ops.marshal amounts ≡ ok json_data))
      → (from_tick to_tick : ℤ) × (ranges : List RangeLiquidity) × (amounts : List
          (RangeAmount f.Float))
        × (json_data : Bytes) × (handler_pool_state f ops pool_json fuel hex_to_address
              get_pool_state
              (asks address offset_text)
              s
            ≡ (ok (some (answer application_json json_data)), s'))
        × (ops.marshal amounts ≡ ok json_data)
        × AmountsOf f token0.decimals token1.decimals ranges amounts
        × All (λ r. (from_tick <ℤ r.tick_upper) × (r.tick_lower <ℤ to_tick)) ranges
        × (from_tick ≤ℤ p.global.tick)
        × (p.global.tick <ℤ to_tick)
        × (to_tick ≡ from_tick +ℤ pos ((2 * offset + 1) * spacing))
        × ((n : ℤ)
            → seen from_tick to_tick n (liquidity_in n ranges)
              ≡ seen from_tick to_tick n (pool_liquidity n p))
  unfolding handler_pool_state
  handler_pool_state-json address offset_text offset spacing p token0 token1 s s' given number pos_o
        pos_s room got t0 t1 sp lo hi ascend marshals =
      let (from_tick, to_tick, window, from_le, lt_to, width, _) =
        calculate_tick_range_lem p.global.tick offset spacing lo hi pos_o pos_s room in
      let ranges =
        filter_range_liquidity_array (build_range_liquidity_array p.tick_states) from_tick
          to_tick in
      let (json_data, marshalled) =
        marshals (calc_range_amount_array f ranges token0.decimals token1.decimals) in
      (
        from_tick,
        to_tick,
        ranges,
        calc_range_amount_array f ranges token0.decimals token1.decimals,
        json_data,
        rw
            (
              handler_pool_state,
              asks-wanted hex_to_address address offset_text offset given number pos_o,
              got,
              respond-json (hex_to_address address) offset p token0 token1 ranges json_data t0 t1
                  (ranges-found offset spacing p from_tick to_tick sp (grind arith) lo hi window)
                  marshalled,
            )
            refl,
        marshalled,
        calc_range_amount_array-AmountsOf f ranges token0.decimals token1.decimals,
        filter_reaches from_tick to_tick (build_range_liquidity_array p.tick_states),
        from_le,
        lt_to,
        width,
        λ n. seen-same from_tick to_tick n _ _ (λ from_n n_to.
            liquidity_in-filter n from_tick to_tick _ from_n n_to
            ∙ liquidity_in-build n p.tick_states ascend),
      )
