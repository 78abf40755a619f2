-- ===== src/Service/Lifecycle/Requests.antt =====
-- What a request to the API does to the stored pools.
use mathlib.Core.Path.{subst}
use uniswapv3_tick_state.Prelude.{◌≡◌, sym, ap, ◌∙◌, Option, List}
use uniswapv3_tick_state.Result.{ok}
use uniswapv3_tick_state.Address.{AddressType}
use uniswapv3_tick_state.Engine.{Engine}
use uniswapv3_tick_state.Engine.Laws.{EngineLaws}
use uniswapv3_tick_state.Types.{TickState}
use uniswapv3_tick_state.Db.Contract.{pool_of, with_pool}
use uniswapv3_tick_state.DbWrap.{new_db}
use uniswapv3_tick_state.DbWrap.Contents.{view_of, IsWellFormed}
use uniswapv3_tick_state.DbWrap.Refines.{new_db-DbLaws}
use uniswapv3_tick_state.SafeDb.{Mode, Guarded}
use uniswapv3_tick_state.SafeDb.Simulation.{Sim-locked}
use uniswapv3_tick_state.PoolGetter.{Pair, Lens, LensOutput, pool_of_output}
use uniswapv3_tick_state.PoolGetter.Answers.{tick_states_of-IsInt32}
use uniswapv3_tick_state.Service.{service_db}
use uniswapv3_tick_state.Service.Blocks.{contents_view}

module _ (t : AddressType) (e : Engine) (lens : Lens t.Address) (get_pair : t.Address → Option Pair)
    (laws : EngineLaws e) where
  open t use {Address}

  pub request_read_lem :
      (a : Address) (s : Guarded Address e.State)
      → IsWellFormed t (laws.find s.inner)
      → (ts : List TickState) × (((service_db t e lens get_pair).get_pool_state a s).0
          ≡ ok (pool_of t (contents_view t laws s) a ts))
        × (((service_db t e lens get_pair).get_pool_state a s).1.inner ≡ s.inner)
  unfolding new_db-DbLaws
  request_read_lem a s w =
      let db = new_db t e in
      let (same, inner) = (Sim-locked t Mode.shared a (db.get_pool_state a)).run s in
      let (ts, reads, lists) = (new_db-DbLaws t e laws).get_pool_state_lem a s.inner w in
      (ts, same ∙ ap (λ r. r.0) reads, inner ∙ ap (λ r. r.1) reads)

  pub request_store_lem :
      (a : Address) (o : LensOutput) (s : Guarded Address e.State)
      → IsWellFormed t (laws.find s.inner)
      → IsWellFormed t
          (laws.find ((service_db t e lens get_pair).set_pool_state a (pool_of_output o) s).1.inner)
        × (contents_view t laws
              ((service_db t e lens get_pair).set_pool_state a (pool_of_output o) s).1
            ≡ with_pool t a (pool_of_output o) (contents_view t laws s))
  unfolding new_db-DbLaws
  request_store_lem a o s w =
      let db = new_db t e in
      let (same, inner) =
        (Sim-locked t Mode.exclusive a (db.set_pool_state a (pool_of_output o))).run s in
      let (r, w1, v1) =
        (new_db-DbLaws t e laws).set_pool_state_lem a (pool_of_output o) s.inner w
          (tick_states_of-IsInt32 o.ticks) in
      (
        subst (λ x. IsWellFormed t (laws.find x)) (sym inner) w1,
        ap (λ x. view_of t (laws.find x)) inner ∙ v1,
      )
