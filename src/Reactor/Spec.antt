-- ===== src/Reactor/Spec.antt =====
-- The reactor's specification on views: what an event does to a pool, and a block to all pools.
use mathlib.Core.Option.{get_or}
use uniswapv3_tick_state.Prelude.{
  ℕ, ◌<◌, List, [], ◌∷◌, leb, ℤ, pos, neg, ◌+ℤ◌, to_int32, if◌then◌else◌, All,
}
use uniswapv3_tick_state.Address.{AddressType}
use uniswapv3_tick_state.Types.{Event, EventType, big_int64}
use uniswapv3_tick_state.Db.Contract.{View, at_tick, with_height, with_current, with_tick}

abbrev pub IsKnownType : EventType → Type 0
IsKnownType (EventType.unknown n) = ⊥
IsKnownType _ = Unit

module _ (t : AddressType) where
  open t use {Address}

  -- The net liquidity of a tick; a tick that was never written has none.
  abbrev pub net : View Address → Address → ℤ → ℤ
  net v a n = get_or (v.tick a n) (pos 0)

  abbrev pub add_net : Address → ℤ → ℤ → View Address → View Address
  add_net a n z v = with_tick t a (at_tick n (net v a n +ℤ z)) v

  abbrev pub apply_by : EventType → Event Address → View Address → View Address
  apply_by EventType.mint e v =
      add_net e.address (to_int32 (big_int64 e.tick_upper)) (neg e.amount)
        (add_net e.address (to_int32 (big_int64 e.tick_lower)) e.amount v)
  apply_by EventType.burn e v =
      add_net e.address (to_int32 (big_int64 e.tick_upper)) e.amount
        (add_net e.address (to_int32 (big_int64 e.tick_lower)) (neg e.amount) v)
  apply_by EventType.swap e v = with_current t e.address (to_int32 (big_int64 e.tick)) v
  apply_by (EventType.unknown n) e v = v

  abbrev pub apply_event : Event Address → View Address → View Address
  apply_event e v = apply_by e.type e v

  -- One event in a block of height `h`: a pool that has reached `h` is left alone.
  unfoldable pub apply_one : ℕ → Event Address → View Address → View Address
  apply_one h e v =
      if leb h (v.height e.address) then v else with_height t e.address h (apply_event e v)

  unfoldable pub apply_all : ℕ → List (Event Address) → View Address → View Address
  apply_all h [] v = v
  apply_all h (e ∷ es) v = apply_all h es (apply_one h e v)

  -- The events are of known types and their pools are stored.
  abbrev pub Stored : View Address → List (Event Address) → Type 0
  Stored v es = All (λ e. IsKnownType e.type × (0 < v.height e.address)) es
