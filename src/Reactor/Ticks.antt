-- ===== src/Reactor/Ticks.antt =====
-- What the three kinds of events do to the net liquidity of ticks.
use mathlib.Core.Path.{subst}
use uniswapv3_tick_state.Prelude.{
  ◌≡◌, refl, sym, ap, ◌∙◌, Bool, true, false, inl, inr, ℤ, pos, neg, ◌+ℤ◌, eqb_ℤ, eqb_ℤ→eq,
  to_int32, if◌then◌else◌, Bool-cases, int_laws,
}
use uniswapv3_tick_state.Result.{Action, ok}
use uniswapv3_tick_state.Address.{AddressType, addr_eqb_refl}
use uniswapv3_tick_state.Types.{Event, EventType, PoolState, big_int64}
use uniswapv3_tick_state.Db.{Db}
use uniswapv3_tick_state.Db.Contract.{View, DbLaws}
use uniswapv3_tick_state.Reactor.{react_event}
use uniswapv3_tick_state.Reactor.Spec.{net, add_net, apply_by, IsKnownType}
use uniswapv3_tick_state.Reactor.Steps.{react_event-Leads}

abbrev pub at_bound : Bool → ℤ → ℤ
at_bound b z = if b then z else pos 0

module _ (t : AddressType) where
  open t use {Address}

  net-add_net :
      (a : Address) (n z : ℤ) (v : View Address) (m : ℤ)
      → net t (add_net t a n z v) a m ≡ net t v a m +ℤ at_bound (eqb_ℤ n m) z
  net-add_net a n z v m = rw addr_eqb_refl (elim (Bool-cases (eqb_ℤ n m)) [
    | inl same ↦ rw same (ap (λ k. net t v a k +ℤ z) (eqb_ℤ→eq n m same))
    | inr other ↦ rw other (omega int_laws)
  ])

regroup : (x p q : ℤ) → x +ℤ p +ℤ q ≡ x +ℤ (p +ℤ q)
regroup x p q = omega int_laws

module _ (t : AddressType) (db : Db t.Address) (laws : DbLaws t db)
    (get_pool : t.Address → Action db.State PoolState) where
  open t use {Address}
  open laws use {IsWf, view}

  abbrev lower : Event Address → ℤ
  lower e = to_int32 (big_int64 e.tick_lower)

  abbrev upper : Event Address → ℤ
  upper e = to_int32 (big_int64 e.tick_upper)

  -- A mint ends well, adds its amount to the net liquidity of its lower tick, takes it from that of
  -- its upper tick, and leaves every other tick of the pool, also where ticks were never written.
  pub react_mint_lem :
      (e : Event Address) (s : db.State) (n : ℤ)
      → IsWf s
      → e.type ≡ EventType.mint
      → ((react_event db get_pool e s).0 ≡ ok tt)
        × (net t (view (react_event db get_pool e s).1) e.address n
            ≡ net t (view s) e.address n
              +ℤ at_bound (eqb_ℤ (lower e) n) e.amount
              +ℤ at_bound (eqb_ℤ (upper e) n) (neg e.amount))
  react_mint_lem e s n w is_mint =
      let (r, w1, v1) =
        react_event-Leads t db laws get_pool e s w (subst IsKnownType (sym is_mint) tt) in
      (
        r,
        ap (λ v. net t v e.address n) v1
            ∙ ap (λ k. net t (apply_by t k e (view s)) e.address n) is_mint
            ∙ net-add_net t e.address (upper e) (neg e.amount)
                (add_net t e.address (lower e) e.amount (view s)) n
            ∙ ap (λ x. x +ℤ at_bound (eqb_ℤ (upper e) n) (neg e.amount))
                (net-add_net t e.address (lower e) e.amount (view s) n),
      )

  -- The same for a burn, with the signs the other way.
  pub react_burn_lem :
      (e : Event Address) (s : db.State) (n : ℤ)
      → IsWf s
      → e.type ≡ EventType.burn
      → ((react_event db get_pool e s).0 ≡ ok tt)
        × (net t (view (react_event db get_pool e s).1) e.address n
            ≡ net t (view s) e.address n
              +ℤ at_bound (eqb_ℤ (lower e) n) (neg e.amount)
              +ℤ at_bound (eqb_ℤ (upper e) n) e.amount)
  react_burn_lem e s n w is_burn =
      let (r, w1, v1) =
        react_event-Leads t db laws get_pool e s w (subst IsKnownType (sym is_burn) tt) in
      (
        r,
        ap (λ v. net t v e.address n) v1
            ∙ ap (λ k. net t (apply_by t k e (view s)) e.address n) is_burn
            ∙ net-add_net t e.address (upper e) e.amount
                (add_net t e.address (lower e) (neg e.amount) (view s)) n
            ∙ ap (λ x. x +ℤ at_bound (eqb_ℤ (upper e) n) e.amount)
                (net-add_net t e.address (lower e) (neg e.amount) (view s) n),
      )

  cancel :
      (x z : ℤ) (p q : Bool)
      → x +ℤ at_bound p z +ℤ at_bound q (neg z) +ℤ at_bound p (neg z) +ℤ at_bound q z ≡ x
  cancel x z true true = omega int_laws
  cancel x z true false = omega int_laws
  cancel x z false true = omega int_laws
  cancel x z false false = omega int_laws

  -- A burn of what a mint added, at the same bounds of the same pool, gives every tick of the pool
  -- the net liquidity back that it had before the mint.
  pub react_burn-mint :
      (e : Event Address) (s : db.State) (n : ℤ)
      → IsWf s
      → e.type ≡ EventType.mint
      → net t
          (view
            (react_event db get_pool
              (record e { type = EventType.burn })
              (react_event db get_pool e s).1).1)
          e.address
          n
        ≡ net t (view s) e.address n
  react_burn-mint e s n w is_mint =
      let (r, w1, v1) =
        react_event-Leads t db laws get_pool e s w (subst IsKnownType (sym is_mint) tt) in
      let s1 = (react_event db get_pool e s).1 in
      (react_burn_lem (record e { type = EventType.burn }) s1 n w1 refl).1
      ∙ ap
          (λ x.
            x
            +ℤ at_bound (eqb_ℤ (lower e) n) (neg e.amount)
            +ℤ at_bound (eqb_ℤ (upper e) n) e.amount)
          (react_mint_lem e s n w is_mint).1
      ∙ cancel (net t (view s) e.address n) e.amount (eqb_ℤ (lower e) n) (eqb_ℤ (upper e) n)
