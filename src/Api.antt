-- ===== src/Api.antt =====
-- api_server.go: the parameters of a request, their defaults, and the ranges that are computed for it.
pub mod Window
pub mod Request
pub mod Handler
pub mod Params
pub mod Answers
use uniswapv3_tick_state.Prelude.{
  ℕ, Bool, Option, none, some, List, [], ◌∷◌, ◌==◌, not, ◌&&◌, ℤ, pos, to_int32, if◌then◌else◌,
}
use uniswapv3_tick_state.Result.{Result, ok, err, panic, bind}
use uniswapv3_tick_state.Bytes.{Bytes, codes, bytes_eqb}
use uniswapv3_tick_state.Types.{PoolState, TickState, big_int64}
use uniswapv3_tick_state.Liquidity.{
  RangeLiquidity, build_range_liquidity_array, filter_range_liquidity_array,
  split_range_liquidity_array, calculate_tick_range,
}

abbrev pub param_type_liquidity : Bytes
param_type_liquidity = b'1' ∷ []

abbrev pub param_type_token_amount : Bytes
param_type_token_amount = b'2' ∷ []

abbrev pub param_type_token_amount_detail : Bytes
param_type_token_amount_detail = b'3' ∷ []

abbrev pub json : Bytes
json = codes "json"

abbrev pub html : Bytes
html = codes "html"

pub record PoolStateParams (Address : Type 0) : Type 0 where
  pub address : Address
  pub tick_offset : ℕ
  pub type : Bytes
  pub format : Bytes

abbrev pub arrange_type : Bytes → Bytes
arrange_type b =
    if not (bytes_eqb b param_type_liquidity)
      && (not (bytes_eqb b param_type_token_amount)
          && not (bytes_eqb b param_type_token_amount_detail))
    then param_type_liquidity
    else b

abbrev pub arrange_format : Bytes → Bytes → Bytes
arrange_format type b =
    let known = if not (bytes_eqb b json) && not (bytes_eqb b html) then json else b in
    if bytes_eqb type param_type_liquidity then json else known

module _ {Address : Type 0} where
  unfoldable pub arrange : PoolStateParams Address → PoolStateParams Address
  arrange p = record p {
    type = arrange_type p.type;
    format = arrange_format (arrange_type p.type) p.format;
    tick_offset = if p.tick_offset == 0 then 10 else p.tick_offset;
  }

-- The ranges that `HandlerPoolState` computes of a pool, for token amounts in the ranges between its
-- ticks or, with `detail`, in ranges of the spacing.
unfoldable pub ranges_of : ℕ → Bool → ℕ → PoolState → Result (Option (List RangeLiquidity))
ranges_of fuel detail tick_offset pool_state =
    let current_tick = to_int32 (big_int64 pool_state.global.tick) in
    let tick_spacing = to_int32 (big_int64 pool_state.global.tick_spacing) in
    bind (calculate_tick_range current_tick (to_int32 (pos tick_offset)) tick_spacing) λ window.
      let built = build_range_liquidity_array pool_state.tick_states in
      let filtered = filter_range_liquidity_array built window.0 window.1 in
      if detail
      then elim (split_range_liquidity_array fuel filtered tick_spacing) [
        | none ↦ ok none
        | some pieces ↦ ok (some (filter_range_liquidity_array pieces window.0 window.1))
      ]
      else ok (some filtered)
