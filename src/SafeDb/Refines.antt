-- ===== src/SafeDb/Refines.antt =====
-- A client of the wrapped database sees through the locks: what the getter, the reactor and the
-- parser do over the `SafeDB` they do over the database inside.
use uniswapv3_tick_state.Prelude.{
  ℕ, refl, ap, inl, inr, Bool-cases, Option, none, some, List, [], ◌∷◌, ◌==◌, leb, ℤ, neg, to_int32,
}
use uniswapv3_tick_state.Result.{panic, Action, pure, ◌>>◌}
use uniswapv3_tick_state.Address.{AddressType}
use uniswapv3_tick_state.Types.{Event, EventType, PoolState, add_liquidity, big_int64}
use uniswapv3_tick_state.Db.{Db}
use uniswapv3_tick_state.SafeDb.{Mode, Guarded, new_safe_db}
use uniswapv3_tick_state.Reactor.{
  ignore, or_new, get_or_new_tick_state, react_tick, react_by, react_event, height_from_pool,
  known_height, react_at, react_one, react_events, react_block_event,
}
use uniswapv3_tick_state.PoolGetter
use uniswapv3_tick_state.PoolGetter.{Pair, Lens}
use uniswapv3_tick_state.Parser.{Abi, BlockReceipt, parse_block}
use uniswapv3_tick_state.Pipeline.{or_fatal, put_block_receipt}
use uniswapv3_tick_state.SafeDb.Simulation.{
  Sim, Sim->>=, Sim-pure, Sim-lift, Sim-ignore, Sim-locked, Sim-unlocked,
}

-- The reactor, over a getter that sees through the locks.
module _ (t : AddressType) (db : Db t.Address)
    (safe_get_pool : t.Address → Action (Guarded t.Address db.State) PoolState)
    (get_pool : t.Address → Action db.State PoolState)
    (getter : (a : t.Address) → Sim t (safe_get_pool a) (get_pool a)) where
  open t use {Address}

  abbrev safe : Db Address
  safe = new_safe_db t db

  tick_state-Sim :
      (a : Address) (n : ℤ)
      → Sim t (get_or_new_tick_state safe safe_get_pool a n) (get_or_new_tick_state db get_pool a n)
  unfolding get_or_new_tick_state
  tick_state-Sim a n = record {
    run = λ s.
        let (same, inner) = (Sim-locked t Mode.shared a (db.get_tick_state a n)).run s in
        (ap (or_new n) same, inner);
  }

  react_tick-Sim :
      (a : Address) (n amount : ℤ)
      → Sim t (react_tick safe safe_get_pool a n amount) (react_tick db get_pool a n amount)
  unfolding react_tick
  react_tick-Sim a n amount =
      Sim->>= t (tick_state-Sim a n)
        λ ts. Sim-locked t Mode.exclusive a (db.set_tick_state a (add_liquidity ts amount))

  -- Two ticks one after the other, their errors dropped.
  ticks-Sim :
      (a : Address) (n m x y : ℤ)
      → Sim t
          (ignore (react_tick safe safe_get_pool a n x)
            >> (ignore (react_tick safe safe_get_pool a m y) >> pure tt))
          (ignore (react_tick db get_pool a n x)
            >> (ignore (react_tick db get_pool a m y) >> pure tt))
  ticks-Sim a n m x y =
      Sim->>= t (Sim-ignore t (react_tick-Sim a n x))
        λ _. Sim->>= t (Sim-ignore t (react_tick-Sim a m y)) λ _. Sim-pure t tt

  react_by-Sim :
      (k : EventType) (e : Event Address)
      → Sim t (react_by safe safe_get_pool k e) (react_by db get_pool k e)
  unfolding react_by
  react_by-Sim EventType.mint e = ticks-Sim e.address _ _ e.amount (neg e.amount)
  react_by-Sim EventType.burn e = ticks-Sim e.address _ _ (neg e.amount) e.amount
  react_by-Sim EventType.swap e =
      let n = to_int32 (big_int64 e.tick) in
      Sim->>= t
        (Sim-ignore t (Sim-locked t Mode.exclusive e.address (db.set_current_tick e.address n)))
        λ _. Sim-pure t tt
  react_by-Sim (EventType.unknown n) e = Sim-lift t panic

  known_height-Sim :
      (a : Address) (h : ℕ)
      → Sim t (known_height safe safe_get_pool a h) (known_height db get_pool a h)
  unfolding known_height
  known_height-Sim a h = elim (Bool-cases (h == 0)) [
    | inl unknown ↦ record {
      run =
          λ s. let (same, inner) = (getter a).run s in rw unknown (ap height_from_pool same, inner);
    }
    | inr known ↦ record { run = λ s. rw known (refl, refl) }
  ]

  react_at-Sim :
      (h : ℕ) (e : Event Address) (o : Option ℕ)
      → Sim t (react_at safe safe_get_pool h e o) (react_at db get_pool h e o)
  unfolding react_at react_event
  react_at-Sim h e none = Sim-pure t tt
  react_at-Sim h e (some k) = elim (Bool-cases (leb h k)) [
    | inl reached ↦ rw reached (Sim-pure t tt)
    | inr below ↦ rw below (
        Sim->>= t (react_by-Sim e.type e)
          λ _. Sim-ignore t (Sim-locked t Mode.exclusive e.address (db.set_height e.address h)))
  ]

  react_events-Sim :
      (h : ℕ) (es : List (Event Address))
      → Sim t (react_events safe safe_get_pool h es) (react_events db get_pool h es)
  unfolding react_events react_one
  react_events-Sim h [] = Sim-pure t tt
  react_events-Sim h (e ∷ es) =
      Sim->>= t
        (Sim->>= t (Sim-locked t Mode.shared e.address (db.get_height e.address))
          λ stored. Sim->>= t (known_height-Sim e.address stored) (react_at-Sim h e))
        λ _. react_events-Sim h es

  pub put_block_receipt-Sim :
      (abi : Abi) (b : BlockReceipt Address)
      → Sim t (put_block_receipt safe safe_get_pool abi b) (put_block_receipt db get_pool abi b)
  unfolding put_block_receipt react_block_event
  put_block_receipt-Sim abi b = Sim->>= t (Sim-lift t (parse_block abi b)) λ block. record {
    run = λ s.
        let reacts =
          Sim->>= t (react_events-Sim block.height block.events)
            λ _. Sim-unlocked t (db.set_finish_height block.height) in
        (ap or_fatal (reacts.run s).0, (reacts.run s).1);
  }

-- The getter.
module _ (t : AddressType) (db : Db t.Address) (lens : Lens t.Address)
    (get_pair : t.Address → Option Pair) where
  open t use {Address}

  or_fetch-Sim :
      (a : Address) (pair : Pair) (o : Option PoolState)
      → Sim t
          (PoolGetter.or_fetch (new_safe_db t db) lens get_pair a pair o)
          (PoolGetter.or_fetch db lens get_pair a pair o)
  unfolding PoolGetter.fetch
  or_fetch-Sim a pair none = Sim->>= t (Sim-lift t (PoolGetter.call_pool_state lens a)) λ p.
      Sim->>= t (Sim-locked t Mode.exclusive a (db.set_pool_state a p))
        λ _. Sim-lift t (PoolGetter.decorate_pool_state p pair)
  or_fetch-Sim a pair (some p) = Sim-lift t (PoolGetter.decorate_pool_state p pair)

  by_pair-Sim :
      (a : Address) (o : Option Pair)
      → Sim t
          (PoolGetter.by_pair (new_safe_db t db) lens get_pair a o)
          (PoolGetter.by_pair db lens get_pair a o)
  unfolding PoolGetter.get_of_pair
  by_pair-Sim a none = Sim-lift t _
  by_pair-Sim a (some pair) = elim (Bool-cases pair.filtered) [
    | inl filtered ↦ rw filtered (Sim-lift t _)
    | inr passes ↦ elim (Bool-cases (pair.protocol_id == 3)) [
      | inl v3 ↦
          rw (passes, v3)
            (Sim->>= t (Sim-locked t Mode.shared a (db.get_pool_state a)) (or_fetch-Sim a pair))
      | inr other ↦ rw (passes, other) (Sim-lift t _)
    ]
  ]

  pub get_pool_state-Sim :
      (a : Address)
      → Sim t
          (PoolGetter.get_pool_state (new_safe_db t db) lens get_pair a)
          (PoolGetter.get_pool_state db lens get_pair a)
  unfolding PoolGetter.get_pool_state
  get_pool_state-Sim a = by_pair-Sim a (get_pair a)
