-- ===== src/ChartRender.antt =====
-- data_render.go: the chart of the amounts in the ranges. The page itself, with its script, is the
-- text of a template.
use uniswapv3_tick_state.Prelude.{ℕ, List, ℤ}
use uniswapv3_tick_state.Result.{Result, bind}
use uniswapv3_tick_state.Bytes.{Bytes}
use uniswapv3_tick_state.Liquidity.{RangeAmount}

-- What the template is executed on.
pub record ChartData : Type 0 where
  pub range_amount_array : Bytes
  pub current_tick : ℤ
  pub tick_spacing : ℤ
  pub height : ℕ
  pub current_price : Bytes
  pub token0_symbol : Bytes
  pub token1_symbol : Bytes

-- json.Marshal of amounts, the text of 1.0001 to the power of a tick in 5 digits, and the execution
-- of the page's template by html/template.
pub record ChartOps (Float : Type 0) : Type 0 where
  pub marshal : List (RangeAmount Float) → Result Bytes
  pub price : ℤ → Bytes
  pub execute : ChartData → Result Bytes

unfoldable pub render_range_amount_array_chart :
    {Float : Type 0}
    → ChartOps Float
    → List (RangeAmount Float)
    → ℤ
    → ℤ
    → ℕ
    → Bytes
    → Bytes
    → Result Bytes
render_range_amount_array_chart ops amounts current_tick tick_spacing height symbol0 symbol1 =
    bind (ops.marshal amounts) λ amounts_json. ops.execute (record {
      range_amount_array = amounts_json;
      current_tick = current_tick;
      tick_spacing = tick_spacing;
      height = height;
      current_price = ops.price current_tick;
      token0_symbol = symbol0;
      token1_symbol = symbol1;
    })
