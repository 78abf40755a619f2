-- ===== src/Tests/Keys.antt =====
-- The keys' theorems at an address and ticks of both signs.
use uniswapv3_tick_state.Prelude.{◌≡◌, pos, negsuc, arith, ltb_ℤ}
use uniswapv3_tick_state.Bytes.{bytes_ltb}
use uniswapv3_tick_state.TickKey.{get_tick_state_key}
use uniswapv3_tick_state.TickKey.Order.{bytes_ltb-get_tick_state_key}
use uniswapv3_tick_state.Samples.Memory.{byte_addresses}

bytes_ltb-get_tick_state_key_example :
    bytes_ltb
      (get_tick_state_key byte_addresses 7 (negsuc 59))
      (get_tick_state_key byte_addresses 7 (pos 60))
    ≡ ltb_ℤ (negsuc 59) (pos 60)
bytes_ltb-get_tick_state_key_example =
    bytes_ltb-get_tick_state_key (negsuc 59) (pos 60) (omega arith) (omega arith) byte_addresses 7
