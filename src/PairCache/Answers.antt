-- ===== src/PairCache/Answers.antt =====
-- The pairs that the cache answers are those that Redis has.
use mathlib.Core.Path.{subst}
use uniswapv3_tick_state.Prelude.{
  ℕ, ◌≡◌, refl, sym, inl, inr, false, Option, none, some, Option-cases, Bool-cases,
}
use uniswapv3_tick_state.Bytes.{Bytes, bytes_eqb}
use uniswapv3_tick_state.Bytes.Order.{bytes_eqb→eq}
use uniswapv3_tick_state.PoolGetter.{Pair}
use uniswapv3_tick_state.PairCache.{
  MemoryCache, RedisAnswer, found, nil, pair_cache_key, from_redis, get_pair,
}

-- What is there is as given; it may be missing.
abbrev pub Agrees : Option Pair → Option Pair → Type 0
Agrees none y = Unit
Agrees (some p) y = y ≡ some p

-- go-cache, as documented: a key that was just set has the value that was set or, expired, none; what
-- other keys have is untouched.
pub record MemoryLaws (memory : MemoryCache) : Type 0 where
  pub get_set_same :
      (now then_ : ℕ) (k : Bytes) (v : Pair) (s : memory.State)
      → Agrees (memory.get now k (memory.set then_ k v s)) (some v)
  pub get_set_other :
      (now then_ : ℕ) (k k1 : Bytes) (v : Pair) (s : memory.State)
      → bytes_eqb k k1 ≡ false
      → memory.get now k1 (memory.set then_ k v s) ≡ memory.get now k1 s

abbrev pub answer_of : Option Pair → RedisAnswer
answer_of none = nil
answer_of (some p) = found p

module _ {Address : Type 0} (hex : Address → Bytes) (memory : MemoryCache)
    (laws : MemoryLaws memory) (redis : ℕ → Bytes → RedisAnswer)
    (content : Bytes → Option Pair) where
  open laws use {get_set_same, get_set_other}

  -- Every pair in memory is the one that Redis has under its key.
  abbrev pub IsCoherent : memory.State → Type 0
  IsCoherent s = (now : ℕ) (k : Bytes) → Agrees (memory.get now k s) (content k)

  set-IsCoherent :
      (now : ℕ) (k : Bytes) (v : Pair) (s : memory.State)
      → IsCoherent s
      → content k ≡ some v
      → IsCoherent (memory.set now k v s)
  set-IsCoherent now k v s coherent is later k1 = elim (Bool-cases (bytes_eqb k k1)) [
    | inl same ↦
        subst (λ k2. Agrees (memory.get later k2 (memory.set now k v s)) (content k2))
          (bytes_eqb→eq k k1 same)
          (subst (Agrees (memory.get later k (memory.set now k v s))) (sym is)
            (get_set_same later now k v s))
    | inr other ↦
        subst (λ o. Agrees o (content k1)) (sym (get_set_other later now k k1 v s other))
          (coherent later k1)
  ]

  fetched_pair :
      (now : ℕ) (k : Bytes) (s : memory.State) (o : Option Pair)
      → IsCoherent s
      → content k ≡ o
      → ((from_redis hex memory redis now k (answer_of o) s).0 ≡ o)
        × IsCoherent (from_redis hex memory redis now k (answer_of o) s).1
  fetched_pair now k s none coherent is = (refl, coherent)
  fetched_pair now k s (some v) coherent is = (refl, set-IsCoherent now k v s coherent is)

  -- While Redis answers and its content stays, the two tiers together answer what Redis has, at any
  -- time and whatever has expired in memory; and the pairs in memory stay those of Redis.
  pub get_pair_lem :
      (now : ℕ) (addr : Address) (s : memory.State)
      → IsCoherent s
      → redis now (pair_cache_key hex memory redis addr)
        ≡ answer_of (content (pair_cache_key hex memory redis addr))
      → ((get_pair hex memory redis now addr s).0 ≡ content (pair_cache_key hex memory redis addr))
        × IsCoherent (get_pair hex memory redis now addr s).1
  unfolding get_pair
  get_pair_lem now addr s coherent answers =
      let k = pair_cache_key hex memory redis addr in
      elim (Option-cases (memory.get now k s)) [
        | inr (p, hit) ↦
            let is : content k ≡ some p = subst (λ o. Agrees o (content k)) hit (coherent now k) in
            (rw (get_pair, hit) (sym is), rw (get_pair, hit) coherent)
        | inl miss ↦
            let (same, stays) = fetched_pair now k s (content k) coherent refl in
            (rw (get_pair, miss, answers) same, rw (get_pair, miss, answers) stays)
      ]
