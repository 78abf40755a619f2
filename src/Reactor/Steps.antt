-- ===== src/Reactor/Steps.antt =====
-- The parts of the reactor over a database that keeps its contract.
use uniswapv3_tick_state.Prelude.{
  ℕ, ◌<◌, ◌≡◌, refl, ap, ◌∙◌, false, inl, inr, ◌==◌, leb, ℤ, pos, neg, ◌+ℤ◌, to_int32,
  to_int32-IsInt32, IsInt32, u64_mod, Bool-cases, Option-cases, arith, int_laws,
}
use uniswapv3_tick_state.Result.{ok, Action, pure, ◌>>◌}
use uniswapv3_tick_state.Address.{AddressType}
use uniswapv3_tick_state.Types.{Event, EventType, PoolState, big_int64, new_tick_state}
use uniswapv3_tick_state.Db.{Db}
use uniswapv3_tick_state.Db.Contract.{View, DbLaws, at_tick, with_height}
use uniswapv3_tick_state.Reactor.{
  ignore, react_tick, react_event, react_by, known_height, react_at, react_one,
}
use uniswapv3_tick_state.Reactor.Spec.{net, add_net, apply_by, apply_event, apply_one, IsKnownType}

zero_plus : (z : ℤ) → pos 0 +ℤ z ≡ z
zero_plus z = omega int_laws

module _ (t : AddressType) (db : Db t.Address) (laws : DbLaws t db)
    (get_pool : t.Address → Action db.State PoolState) where
  open t use {Address}
  open laws use {IsWf, view}

  -- An action that ends well in a well-formed state with the view `v`.
  abbrev pub Leads : Action db.State (Unit {0}) → db.State → View Address → Type 0
  Leads m s v = ((m s).0 ≡ ok tt) × IsWf (m s).1 × (view (m s).1 ≡ v)

  tick_read :
      (a : Address) (n : ℤ) (z : ℤ) (s : db.State)
      → IsWf s
      → IsInt32 n
      → react_tick db get_pool a n z s ≡ db.set_tick_state a (at_tick n (net t (view s) a n +ℤ z)) s
  unfolding react_tick new_tick_state
  tick_read a n z s w h = rw laws.get_tick_state_lem (elim (Option-cases ((view s).tick a n)) [
    | inl missing ↦ rw missing refl
    | inr (x, found) ↦ rw found refl
  ])

  react_tick-Leads :
      (a : Address) (n : ℤ) (z : ℤ) (s : db.State)
      → IsWf s
      → IsInt32 n
      → Leads (react_tick db get_pool a n z) s (add_net t a n z (view s))
  react_tick-Leads a n z s w h =
      rw (tick_read a n z s w h)
        (laws.set_tick_state_lem a (at_tick n (net t (view s) a n +ℤ z)) s w h)

  ignore-Leads :
      {A : Type 0} (m : Action db.State A) (s : db.State) (v : View Address) (a : A)
      → (m s).0 ≡ ok a
      → IsWf (m s).1
      → view (m s).1 ≡ v
      → Leads (ignore m) s v
  ignore-Leads m s v a r w h = (rw r refl, w, h)

  seq-Leads :
      (m k : Action db.State (Unit {0})) (s : db.State) (v v' : View Address)
      → Leads m s v
      → (IsWf (m s).1 → view (m s).1 ≡ v → Leads k (m s).1 v')
      → Leads (m >> k) s v'
  seq-Leads m k s v v' (r, w, h) next = rw r (next w h)

  pure-Leads : (s : db.State) → IsWf s → Leads (pure tt) s (view s)
  pure-Leads s w = (refl, w, refl)

  -- Two changes of ticks in a row, each with its error dropped.
  two_ticks-Leads :
      (a : Address) (n m z y : ℤ) (s : db.State)
      → IsWf s
      → IsInt32 n
      → IsInt32 m
      → Leads
          (ignore (react_tick db get_pool a n z)
            >> (ignore (react_tick db get_pool a m y) >> pure tt))
          s
          (add_net t a m y (add_net t a n z (view s)))
  two_ticks-Leads a n m z y s w hn hm =
      let (r, w1, v1) = react_tick-Leads a n z s w hn in
      let s1 = (react_tick db get_pool a n z s).1 in
      let (r2, w2, v2) = react_tick-Leads a m y s1 w1 hm in
      rw (r, r2) (refl, w2, v2 ∙ ap (add_net t a m y) v1)

  pub react_event-Leads :
      (e : Event Address) (s : db.State)
      → IsWf s
      → IsKnownType e.type
      → Leads (react_event db get_pool e) s (apply_event t e (view s))
  unfolding react_event react_by
  react_event-Leads e s w known = by_type e.type known
    where
      by_type :
          (k : EventType)
          → IsKnownType k
          → Leads (react_by db get_pool k e) s (apply_by t k e (view s))
      by_type EventType.mint known =
          two_ticks-Leads e.address _ _ e.amount (neg e.amount) s w
            (to_int32-IsInt32 (big_int64 e.tick_lower)) (to_int32-IsInt32 (big_int64 e.tick_upper))
      by_type EventType.burn known =
          two_ticks-Leads e.address _ _ (neg e.amount) e.amount s w
            (to_int32-IsInt32 (big_int64 e.tick_lower)) (to_int32-IsInt32 (big_int64 e.tick_upper))
      by_type EventType.swap known =
          let (r, w1, v1) =
            laws.set_current_tick_lem e.address (to_int32 (big_int64 e.tick)) s w
              (to_int32-IsInt32 (big_int64 e.tick)) in
          rw r (refl, w1, v1)
      by_type (EventType.unknown n) known = absurd known

  -- One event of a stored pool.
  pub react_one-Leads :
      (h : ℕ) (e : Event Address) (s : db.State)
      → IsWf s
      → h < u64_mod
      → IsKnownType e.type
      → 0 < (view s).height e.address
      → Leads (react_one db get_pool h e) s (apply_one t h e (view s))
  unfolding react_one known_height react_at apply_one
  react_one-Leads h e s w lt known stored =
      let not_zero : ((view s).height e.address == 0) ≡ false = ground arith in
      rw (laws.get_height_lem e.address s w, not_zero)
        (elim (Bool-cases (leb h ((view s).height e.address))) [
          | inl reached ↦ rw reached (refl, w, refl)
          | inr below ↦
              let (r, w1, v1) = react_event-Leads e s w known in
              let s1 = (react_event db get_pool e s).1 in
              let (r2, w2, v2) = laws.set_height_lem e.address h s1 w1 lt in
              rw (below, r, r2) (refl, w2, v2 ∙ ap (with_height t e.address h) v1)
        ])
