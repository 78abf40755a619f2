-- ===== src/PoolGetter/Answers.antt =====
-- What the getter answers, and that the reactor knows its refusals.
use uniswapv3_tick_state.Prelude.{
  ◌<◌, ◌≡◌, refl, sym, ap, ◌∙◌, Bool, true, false, inl, inr, not, ◌&&◌, Option, none, some, List,
  [], ◌∷◌, if◌then◌else◌, ◌==◌, IsInt32, to_int32-IsInt32, Bool-cases, Option-cases, &&-eq-true,
  All, arith,
}
use uniswapv3_tick_state.Result.{Error, pair_not_found, pair_filtered, not_v3_pool, ok, err, ◌>>=◌}
use uniswapv3_tick_state.Address.{AddressType}
use uniswapv3_tick_state.Types.{TickState, PoolState, big_int64, to_int64}
use uniswapv3_tick_state.Db.{Db}
use uniswapv3_tick_state.Db.Contract.{View, DbLaws, ListsTicks, pool_of, with_pool}
use uniswapv3_tick_state.PoolGetter
use uniswapv3_tick_state.PoolGetter.{
  Pair, TokenCore, token_of, Lens, LensTick, LensOutput, tick_states_of, pool_of_output,
  decorate_pool_state, call_pool_state, get_pool_state,
}
use uniswapv3_tick_state.Reactor.{is_ignorant_error}

-- A pool of this service: its pair is known, not filtered, and of version 3.
abbrev pub is_served : Option Pair → Bool
is_served none = false
is_served (some pair) = not pair.filtered && pair.protocol_id == 3

not_served :
    (pair : Pair)
    → pair.filtered ≡ false
    → is_served (some pair) ≡ false
    → (pair.protocol_id == 3) ≡ false
not_served pair passes refused = sym (rw passes refl) ∙ refused

not-true : (b : Bool) → not b ≡ true → b ≡ false
not-true true h = cc
not-true false h = refl

pub tick_states_of-IsInt32 :
    (ticks : List LensTick) → All (λ ts. IsInt32 ts.tick) (tick_states_of ticks)
unfolding tick_states_of
tick_states_of-IsInt32 [] = tt
tick_states_of-IsInt32 (x ∷ ticks) =
    (to_int32-IsInt32 (big_int64 x.index), tick_states_of-IsInt32 ticks)

pool_of-some :
    (t : AddressType) (v : View t.Address) (a : t.Address) (ts : List TickState)
    → (v.height a == 0) ≡ false
    → (p : PoolState) × (pool_of t v a ts ≡ some p)
pool_of-some t v a ts h =
    let p : PoolState = record {
      token0 = none;
      token1 = none;
      global = record {
        height = to_int64 (v.height a);
        tick_spacing = v.spacing a;
        tick = v.current a;
      };
      tick_states = ts;
    } in
    (p, rw h refl)

decorate_pool_state_lem :
    (p : PoolState) (pair : Pair) (core0 core1 : TokenCore)
    → pair.token0_core ≡ some core0
    → pair.token1_core ≡ some core1
    → (q : PoolState) × (decorate_pool_state p pair ≡ ok q)
      × (q.token0 ≡ some (token_of (if pair.tokens_reversed then core1 else core0)))
      × (q.token1 ≡ some (token_of (if pair.tokens_reversed then core0 else core1)))
      × (q.global ≡ p.global)
      × (q.tick_states ≡ p.tick_states)
unfolding decorate_pool_state
decorate_pool_state_lem p pair core0 core1 has0 has1 = elim (Bool-cases pair.tokens_reversed) [
  | inl reversed ↦ (
    record p { token0 = some (token_of core1); token1 = some (token_of core0) },
    rw (has0, has1, reversed) refl,
    rw reversed refl,
    rw reversed refl,
    refl,
    refl,
  )
  | inr kept ↦ (
    record p { token0 = some (token_of core0); token1 = some (token_of core1) },
    rw (has0, has1, kept) refl,
    rw kept refl,
    rw kept refl,
    refl,
    refl,
  )
]

module _ {Address : Type 0} (db : Db Address) (lens : Lens Address)
    (get_pair : Address → Option Pair) where
  -- A pool that is not served is refused before the database and the chain are asked, with an error
  -- that the reactor takes for a reason to skip the event.
  pub get_pool_state-refused :
      (a : Address) (s : db.State)
      → is_served (get_pair a) ≡ false
      → (e : Error) × (get_pool_state db lens get_pair a s ≡ (err e, s))
        × (is_ignorant_error e ≡ true)
  unfolding get_pool_state PoolGetter.get_of_pair is_ignorant_error
  get_pool_state-refused a s refused = elim (Option-cases (get_pair a)) [
    | inl unknown ↦ (pair_not_found, rw unknown refl, refl)
    | inr (pair, known) ↦ elim (Bool-cases pair.filtered) [
      | inl filtered ↦ (pair_filtered, rw (known, filtered) refl, refl)
      | inr passes ↦
          let other : (pair.protocol_id == 3) ≡ false =
            not_served pair passes (sym (ap is_served known) ∙ refused) in
          (not_v3_pool, rw (known, passes, other) refl, refl)
    ]
  ]

  served :
      (a : Address) (pair : Pair) (s : db.State)
      → get_pair a ≡ some pair
      → is_served (some pair) ≡ true
      → get_pool_state db lens get_pair a s
        ≡ (db.get_pool_state a >>= PoolGetter.or_fetch db lens get_pair a pair) s
  unfolding get_pool_state PoolGetter.get_of_pair
  served a pair s known ours =
      let (passes, version) = &&-eq-true (not pair.filtered) (pair.protocol_id == 3) ours in
      rw (known, not-true pair.filtered passes, version) refl

module _ (t : AddressType) (db : Db t.Address) (laws : DbLaws t db) (lens : Lens t.Address)
    (get_pair : t.Address → Option Pair) where
  open t use {Address}
  open laws use {IsWf, view}

  -- A served pool that the database has is read from it, without a call to the chain, and gets the
  -- tokens of its pair; the database stays as it is.
  pub get_pool_state-stored :
      (a : Address) (pair : Pair) (s : db.State)
      → get_pair a ≡ some pair
      → is_served (some pair) ≡ true
      → IsWf s
      → 0 < (view s).height a
      → (p : PoolState) × (ts : List TickState) × (pool_of t (view s) a ts ≡ some p)
        × ListsTicks t (view s) a ts
        × (get_pool_state db lens get_pair a s ≡ (decorate_pool_state p pair, s))
  get_pool_state-stored a pair s known ours w stored =
      let (ts, reads, lists) = laws.get_pool_state_lem a s w in
      let not_zero : ((view s).height a == 0) ≡ false = ground arith in
      let (p, has) = pool_of-some t (view s) a ts not_zero in
      (p, ts, has, lists, served db lens get_pair a pair s known ours ∙ rw (reads, has) refl)

  -- A served pool that the database does not have, for which the lens contract answers, and whose
  -- pair has both tokens, is stored as the contract has it, and returned as the contract has it with
  -- the tokens of its pair, swapped where the pair has them reversed.
  pub get_pool_state-fetched :
      (a : Address) (pair : Pair) (core0 core1 : TokenCore) (o : LensOutput) (s : db.State)
      → get_pair a ≡ some pair
      → is_served (some pair) ≡ true
      → IsWf s
      → (view s).height a ≡ 0
      → call_pool_state lens a ≡ ok (pool_of_output o)
      → pair.token0_core ≡ some core0
      → pair.token1_core ≡ some core1
      → (p : PoolState) × ((get_pool_state db lens get_pair a s).0 ≡ ok p)
        × (p.token0 ≡ some (token_of (if pair.tokens_reversed then core1 else core0)))
        × (p.token1 ≡ some (token_of (if pair.tokens_reversed then core0 else core1)))
        × (p.global ≡ (pool_of_output o).global)
        × (p.tick_states ≡ (pool_of_output o).tick_states)
        × IsWf (get_pool_state db lens get_pair a s).1
        × (view (get_pool_state db lens get_pair a s).1 ≡ with_pool t a (pool_of_output o) (view s))
  unfolding PoolGetter.fetch
  get_pool_state-fetched a pair core0 core1 o s known ours w missing answers has0 has1 =
      let (ts, reads, lists) = laws.get_pool_state_lem a s w in
      let p = pool_of_output o in
      let nothing : pool_of t (view s) a ts ≡ none = rw missing refl in
      let step : get_pool_state db lens get_pair a s ≡ PoolGetter.fetch db lens get_pair a pair s =
        served db lens get_pair a pair s known ours ∙ rw (reads, nothing) refl in
      let (r, w1, v1) = laws.set_pool_state_lem a p s w (tick_states_of-IsInt32 o.ticks) in
      let (q, decorated, t0, t1, globals, ticks) =
        decorate_pool_state_lem p pair core0 core1 has0 has1 in
      (
        q,
        rw (step, answers, r) decorated,
        t0,
        t1,
        globals,
        ticks,
        rw (step, answers, r) w1,
        rw (step, answers, r) v1,
      )

  -- A served pool that the database does not have, and whose state the chain does not give, is that
  -- error, and nothing is stored.
  pub get_pool_state-failed :
      (a : Address) (pair : Pair) (x : Error) (s : db.State)
      → get_pair a ≡ some pair
      → is_served (some pair) ≡ true
      → IsWf s
      → (view s).height a ≡ 0
      → call_pool_state lens a ≡ err x
      → get_pool_state db lens get_pair a s ≡ (err x, s)
  unfolding PoolGetter.fetch
  get_pool_state-failed a pair x s known ours w missing fails =
      let (ts, reads, lists) = laws.get_pool_state_lem a s w in
      let nothing : pool_of t (view s) a ts ≡ none = rw missing refl in
      served db lens get_pair a pair s known ours ∙ rw (reads, nothing, fails) refl
