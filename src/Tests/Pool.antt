-- ===== src/Tests/Pool.antt =====
-- The getter and the way of a block through parser and reactor, at one stored pool.
use uniswapv3_tick_state.Prelude.{
  ℕ, ◌<◌, none, arith, ◌≡◌, refl, true, false, some, [], ◌∷◌, pos, negsuc,
}
use uniswapv3_tick_state.Result.{empty_output, ok}
use uniswapv3_tick_state.Types.{PoolState, big_uint64}
use uniswapv3_tick_state.Db.Contract.{DbLaws, with_pool}
use uniswapv3_tick_state.DbWrap.Refines.{new_db-DbLaws}
use uniswapv3_tick_state.PoolGetter.{
  or_fetch, Pair, Lens, LensOutput, pool_of_output, decorate_pool_state, call_pool_state,
  get_pool_state,
}
use uniswapv3_tick_state.PoolGetter.Missing.{react_block_event-missing_pool}
use uniswapv3_tick_state.Reactor.{react_block_event}
use uniswapv3_tick_state.Reactor.Blocks.{block_of}
use uniswapv3_tick_state.PoolGetter.Stale.{or_fetch-stale}
use uniswapv3_tick_state.PoolGetter.Answers.{get_pool_state-fetched}
use uniswapv3_tick_state.Samples.Memory.{memory-EngineLaws, byte_addresses, find}
use uniswapv3_tick_state.Samples.Stored.{
  mint_event, one_pool_wf, one_pool_height, one_pool, db, laws,
}
use uniswapv3_tick_state.Tests.Reactor.{view, nothing-IsWf}

abbrev pub weth_usdc : Pair
weth_usdc = record {
  tokens_reversed = true;
  token0_core = some (record { symbol = b'W' ∷ []; decimals = pos 18 });
  token1_core = some (record { symbol = b'U' ∷ []; decimals = pos 6 });
  protocol_id = 3;
  filtered = false;
}

abbrev version_2 : Pair
version_2 = record weth_usdc { protocol_id = 2 }

abbrev pub on_chain : LensOutput
on_chain = record {
  height = pos 150;
  tick_spacing = pos 60;
  tick = negsuc 6;
  ticks = record { index = negsuc 59; liquidity_net = pos 5 } ∷ [];
}

abbrev pub lens : Lens ℕ
lens = record { pack = λ a. ok (a ∷ []); call_contract = λ b. ok b; unpack = λ b. ok on_chain }

pub empty_height : (view []).height 7 ≡ 0
unfolding new_db-DbLaws memory-EngineLaws find
empty_height = refl

lens_answers : call_pool_state lens 7 ≡ ok (pool_of_output on_chain)
unfolding call_pool_state
lens_answers = refl

get_pool_state-fetched_example :
    (p : PoolState) × ((get_pool_state db lens (λ a. some weth_usdc) 7 []).0 ≡ ok p)
    × (p.token0 ≡ some (record { symbol = b'U' ∷ []; decimals = pos 6 }))
    × (p.token1 ≡ some (record { symbol = b'W' ∷ []; decimals = pos 18 }))
    × (p.global ≡ (pool_of_output on_chain).global)
    × (p.tick_states ≡ (pool_of_output on_chain).tick_states)
    × DbLaws.IsWf laws (get_pool_state db lens (λ a. some weth_usdc) 7 []).1
    × (view (get_pool_state db lens (λ a. some weth_usdc) 7 []).1
        ≡ with_pool byte_addresses 7 (pool_of_output on_chain) (view []))
get_pool_state-fetched_example =
    get_pool_state-fetched byte_addresses db laws lens (λ a. some weth_usdc) 7 weth_usdc
      (record { symbol = b'W' ∷ []; decimals = pos 18 })
      (record { symbol = b'U' ∷ []; decimals = pos 6 }) on_chain [] refl refl nothing-IsWf
      empty_height lens_answers refl refl

abbrev earlier : LensOutput
earlier = record on_chain { height = pos 50 }

abbrev early_lens : Lens ℕ
early_lens = record lens { unpack = λ b. ok earlier }

or_fetch-stale_example :
    ((or_fetch db early_lens (λ a. some weth_usdc) 7 weth_usdc none one_pool).0
      ≡ decorate_pool_state (pool_of_output earlier) weth_usdc)
    × ((view (or_fetch db early_lens (λ a. some weth_usdc) 7 weth_usdc none one_pool).1).height 7
        < (view one_pool).height 7)
    × ((view (or_fetch db early_lens (λ a. some weth_usdc) 7 weth_usdc none one_pool).1).height 7
        ≡ big_uint64 (pos 50))
    × ((view (or_fetch db early_lens (λ a. some weth_usdc) 7 weth_usdc none one_pool).1).finish
        ≡ (view one_pool).finish)
unfolding new_db-DbLaws call_pool_state memory-EngineLaws big_uint64
or_fetch-stale_example =
    or_fetch-stale byte_addresses db laws early_lens (λ a. some weth_usdc) 7 weth_usdc earlier
      one_pool one_pool_wf refl (let height = one_pool_height in omega arith)

abbrev no_lens : Lens ℕ
no_lens = record lens { call_contract = λ b. ok [] }

react_block_event-missing_pool_example :
    react_block_event db
      (get_pool_state db no_lens (λ a. some version_2))
      (block_of 200 (mint_event ∷ []))
      []
    ≡ react_block_event db (get_pool_state db no_lens (λ a. some version_2)) (block_of 200 []) []
unfolding call_pool_state
react_block_event-missing_pool_example =
    react_block_event-missing_pool byte_addresses db laws no_lens (λ a. some version_2) 200
      mint_event [] empty_output [] nothing-IsWf empty_height refl tt
