-- ===== src/PairCache.antt =====
-- cache.go: the pairs of pools, in memory and behind it in Redis.
pub mod Answers
use uniswapv3_tick_state.Prelude.{ℕ, Option, none, some, ◌++◌}
use uniswapv3_tick_state.Bytes.{Bytes, codes}
use uniswapv3_tick_state.PoolGetter.{Pair}

-- go-cache: what it has under a key at a time, and with a value set at a time.
pub record MemoryCache : Type 1 where
  pub State : Type 0
  pub get : ℕ → Bytes → State → Option Pair
  pub set : ℕ → Bytes → Pair → State → State

-- What Redis answers, its value being read into a pair; redis.Nil is an error that says that there is
-- none.
pub data RedisAnswer : Type 0 where
  found : Pair → RedisAnswer
  nil : RedisAnswer
  failed : RedisAnswer

module _ {Address : Type 0} (hex : Address → Bytes) (memory : MemoryCache)
    (redis : ℕ → Bytes → RedisAnswer) where
  abbrev pub pair_cache_key : Address → Bytes
  pair_cache_key addr = codes "npr:" ++ hex addr

  abbrev pub from_redis : ℕ → Bytes → RedisAnswer → memory.State → Option Pair × memory.State
  from_redis now k (found v) s = (some v, memory.set now k v s)
  from_redis now k nil s = (none, s)
  from_redis now k failed s = (none, s)

  -- at a time of the clock
  unfoldable pub get_pair : ℕ → Address → memory.State → Option Pair × memory.State
  get_pair now addr s =
      let k = pair_cache_key addr in
      elim (memory.get now k s) [
        | some pair ↦ (some pair, s)
        | none ↦ from_redis now k (redis now k) s
      ]
