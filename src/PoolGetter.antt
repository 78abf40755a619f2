-- ===== src/PoolGetter.antt =====
-- pool_state_getter.go, and what it needs of pair.go and contract_caller.go: the state of a pool from
-- the database, or else from the chain. The cache of pairs (cache.go, over Redis) and the calls of
-- the node are parameters: what they answer.
pub mod Answers
pub mod Stale
pub mod Missing
use uniswapv3_tick_state.Prelude.{
  ℕ, Bool, Option, none, some, List, [], ◌∷◌, ◌==◌, not, ℤ, to_int32, if◌then◌else◌,
}
use uniswapv3_tick_state.Result.{
  pair_not_found, pair_filtered, not_v3_pool, empty_output, Result, ok, err, panic, bind, Action,
  pure, lift, continue, ◌>>=◌, ◌>>◌,
}
use uniswapv3_tick_state.Bytes.{Bytes}
use uniswapv3_tick_state.Types.{Token, TickState, PoolGlobalState, PoolState, big_int64}
use uniswapv3_tick_state.Db.{Db}

-- `TokenCore` and `Pair`, with the fields that are read. The tokens are pointers, which may be nil.
pub record TokenCore : Type 0 where
  pub symbol : Bytes
  pub decimals : ℤ

pub record Pair : Type 0 where
  pub tokens_reversed : Bool
  pub token0_core : Option TokenCore
  pub token1_core : Option TokenCore
  pub protocol_id : ℕ
  pub filtered : Bool

abbrev pub token_of : TokenCore → Token
token_of c = record { symbol = c.symbol; decimals = c.decimals }

-- a pointer that is followed
abbrev pub core_at : Option TokenCore → Result TokenCore
core_at none = panic
core_at (some c) = ok c

unfoldable pub decorate_pool_state : PoolState → Pair → Result PoolState
decorate_pool_state p pair = bind (core_at pair.token0_core) λ core0.
    bind (core_at pair.token1_core) λ core1.
      let token0 = some (token_of core0) in
      let token1 = some (token_of core1) in
      ok (
        if pair.tokens_reversed
        then record p { token0 = token1; token1 = token0 }
        else record p { token0 = token0; token1 = token1 })

-- What the lens contract's getAllTicks returns, with the fields that are read.
pub record LensTick : Type 0 where
  pub index : ℤ
  pub liquidity_net : ℤ

pub record LensOutput : Type 0 where
  pub height : ℤ
  pub tick_spacing : ℤ
  pub tick : ℤ
  pub ticks : List LensTick

-- Packing the call and unpacking its answer are the ABI library's, and `call_contract` is
-- CallContract, which asks the node until it answers or the time is over.
pub record Lens (Address : Type 0) : Type 0 where
  pub pack : Address → Result Bytes
  pub call_contract : Bytes → Result Bytes
  pub unpack : Bytes → Result LensOutput

unfoldable pub tick_states_of : List LensTick → List TickState
tick_states_of [] = []
tick_states_of (t ∷ ts) =
    record { tick = to_int32 (big_int64 t.index); liquidity_net = t.liquidity_net }
    ∷ tick_states_of ts

abbrev pub pool_of_output : LensOutput → PoolState
pool_of_output o = record {
  token0 = none;
  token1 = none;
  global = record { height = o.height; tick_spacing = o.tick_spacing; tick = o.tick };
  tick_states = tick_states_of o.ticks;
}

abbrev pub not_empty : Bytes → Result Bytes
not_empty [] = err empty_output
not_empty (b ∷ bs) = ok (b ∷ bs)

module _ {Address : Type 0} where
  -- `ContractCaller.GetPoolState`
  unfoldable pub call_pool_state : Lens Address → Address → Result PoolState
  call_pool_state lens addr = bind (lens.pack addr) λ input.
      bind (lens.call_contract input) λ bytes.
        bind (not_empty bytes) λ output. bind (lens.unpack output) λ o. ok (pool_of_output o)

  module _ (db : Db Address) (lens : Lens Address) (get_pair : Address → Option Pair) where
    -- What `GetPoolState` does where the database has no pool.
    unfoldable pub fetch : Address → Pair → Action db.State PoolState
    unfolding call_pool_state decorate_pool_state
    fetch addr pair = do
      pool_state ← lift (call_pool_state lens addr)
      db.set_pool_state addr pool_state
      lift (decorate_pool_state pool_state pair)

    abbrev pub or_fetch : Address → Pair → Option PoolState → Action db.State PoolState
    or_fetch addr pair none = fetch addr pair
    or_fetch addr pair (some pool_state) = lift (decorate_pool_state pool_state pair)

    unfoldable pub get_of_pair : Address → Pair → Action db.State PoolState
    unfolding fetch decorate_pool_state
    get_of_pair addr pair =
        if pair.filtered
        then lift (err pair_filtered)
        else if not (pair.protocol_id == 3)
        then lift (err not_v3_pool)
        else (db.get_pool_state addr >>= or_fetch addr pair)

    abbrev pub by_pair : Address → Option Pair → Action db.State PoolState
    by_pair addr none = lift (err pair_not_found)
    by_pair addr (some pair) = get_of_pair addr pair

    -- `poolStateGetter.GetPoolState`
    unfoldable pub get_pool_state : Address → Action db.State PoolState
    get_pool_state addr s = by_pair addr (get_pair addr) s
