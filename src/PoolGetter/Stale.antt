-- ===== src/PoolGetter/Stale.antt =====
-- GetPoolState is two steps on the database, and other goroutines come between them.
use uniswapv3_tick_state.Prelude.{
  ◌<◌, ◌≡◌, refl, ap, ◌∙◌, Option, none, List, [], ◌∷◌, if◌then◌else◌, arith,
}
use uniswapv3_tick_state.Result.{ok}
use uniswapv3_tick_state.Address.{AddressType, addr_eqb_refl}
use uniswapv3_tick_state.Types.{TickState, big_uint64}
use uniswapv3_tick_state.Db.{Db}
use uniswapv3_tick_state.Db.Contract.{View, DbLaws, with_ticks, with_tick}
use uniswapv3_tick_state.PoolGetter
use uniswapv3_tick_state.PoolGetter.{
  Pair, Lens, LensOutput, pool_of_output, decorate_pool_state, call_pool_state, or_fetch,
}
use uniswapv3_tick_state.PoolGetter.Answers.{tick_states_of-IsInt32}

with_ticks-height :
    (t : AddressType) (a b : t.Address) (ts : List TickState) (v : View t.Address)
    → ((with_ticks t a ts v).height b ≡ v.height b) × ((with_ticks t a ts v).finish ≡ v.finish)
with_ticks-height t a b [] v = (refl, refl)
with_ticks-height t a b (x ∷ ts) v = with_ticks-height t a b ts (with_tick t a x v)

module _ (t : AddressType) (db : Db t.Address) (laws : DbLaws t db) (lens : Lens t.Address)
    (get_pair : t.Address → Option Pair) where
  open laws use {IsWf, view}

  -- A goroutine that found no pool in the database goes on in a state in which another one has stored
  -- the pool and applied blocks to it, up to a height above the block of the lens contract's answer:
  -- it ends as decorating the answer with the pair's tokens does, the pool's height falls back to the block of the answer, and the
  -- finished height stays. The database keeps the contract of DB.
  pub or_fetch-stale :
      (a : t.Address) (pair : Pair) (o : LensOutput) (s : db.State)
      → IsWf s
      → call_pool_state lens a ≡ ok (pool_of_output o)
      → big_uint64 o.height < (view s).height a
      → ((or_fetch db lens get_pair a pair none s).0 ≡ decorate_pool_state (pool_of_output o) pair)
        × ((view (or_fetch db lens get_pair a pair none s).1).height a < (view s).height a)
        × ((view (or_fetch db lens get_pair a pair none s).1).height a ≡ big_uint64 o.height)
        × ((view (or_fetch db lens get_pair a pair none s).1).finish ≡ (view s).finish)
  unfolding PoolGetter.fetch
  or_fetch-stale a pair o s w answers older =
      let p = pool_of_output o in
      let (r, w1, v1) = laws.set_pool_state_lem a p s w (tick_states_of-IsInt32 o.ticks) in
      let (same_height, same_finish) = with_ticks-height t a a p.tick_states _ in
      let falls : (view (db.set_pool_state a p s).1).height a ≡ big_uint64 o.height =
        ap (λ v. v.height a) v1
        ∙ same_height
        ∙ ap (λ b. if b then big_uint64 o.height else (view s).height a) (addr_eqb_refl t a) in
      rw (answers, r) (refl, omega arith, falls, ap (λ v. v.finish) v1 ∙ same_finish)
