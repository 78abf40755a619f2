-- ===== src/Tests/Pairs.antt =====
-- The cache of pairs over a memory that forgets nothing and a Redis that has one pair for every key.
use uniswapv3_tick_state.Prelude.{ℕ, ◌≡◌, refl, Option, none, some, List, [], ◌∷◌, if◌then◌else◌}
use uniswapv3_tick_state.Bytes.{Bytes, bytes_eqb}
use uniswapv3_tick_state.Bytes.Order.{bytes_eqb_refl}
use uniswapv3_tick_state.PoolGetter.{Pair}
use uniswapv3_tick_state.PairCache.{MemoryCache, RedisAnswer, found, get_pair}
use uniswapv3_tick_state.PairCache.Answers.{MemoryLaws, IsCoherent, get_pair_lem}
use uniswapv3_tick_state.Tests.Pool.{weth_usdc}

abbrev look_up : Bytes → List (Bytes × Pair) → Option Pair
look_up k [] = none
look_up k ((k1, v) ∷ s) = if bytes_eqb k1 k then some v else look_up k s

abbrev pairs : MemoryCache
pairs = record { State = List (Bytes × Pair); get = λ now. look_up; set = λ now k v s. (k, v) ∷ s }

pairs-MemoryLaws : MemoryLaws pairs
pairs-MemoryLaws = record {
  get_set_same = λ now before k v s. rw (bytes_eqb_refl k) refl;
  get_set_other = λ now before k k1 v s other. rw other refl;
}

abbrev one_pair : ℕ → Bytes → RedisAnswer
one_pair now k = found weth_usdc

abbrev content : Bytes → Option Pair
content k = some weth_usdc

get_pair_lem_example :
    ((get_pair (λ (a : ℕ). a ∷ []) pairs one_pair 5 7 []).0 ≡ some weth_usdc)
    × IsCoherent
        (λ (a : ℕ). a ∷ [])
        pairs
        pairs-MemoryLaws
        one_pair
        content
        (get_pair (λ (a : ℕ). a ∷ []) pairs one_pair 5 7 []).1
get_pair_lem_example =
    get_pair_lem (λ (a : ℕ). a ∷ []) pairs pairs-MemoryLaws one_pair content 5 7 [] (λ now k. tt)
      refl
