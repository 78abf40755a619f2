-- ===== src/DbWrap/Writes.antt =====
-- The writing methods of `rocksDBWrap` over a sound engine and well-formed contents.
use mathlib.Core.Path.{fun_ext, subst}
use uniswapv3_tick_state.Prelude.{
  ℕ, ◌<◌, ◌≡◌, sym, ap, ◌∙◌, List, ℤ, IsInt32, to_int32, to_int32-IsInt32, u64_mod, All,
}
use uniswapv3_tick_state.Result.{ok, Action}
use uniswapv3_tick_state.Bytes.{Bytes}
use uniswapv3_tick_state.Address.{AddressType}
use uniswapv3_tick_state.Engine.{Engine, BatchOp}
use uniswapv3_tick_state.Engine.Laws.{EngineLaws, Contents, contents_put, apply_ops}
use uniswapv3_tick_state.TickKey.{
  make_current_tick_key, make_tick_spacing_key, make_pool_height_key, uint64_to_bytes,
  int32_to_bytes,
}
use uniswapv3_tick_state.Types.{TickState, PoolState, big_int64, big_uint64, big_uint64-lt}
use uniswapv3_tick_state.Db.Contract.{
  View, with_finish, with_height, with_current, with_spacing, with_tick, with_ticks, with_pool,
  without_pool,
}
use uniswapv3_tick_state.DbWrap
use uniswapv3_tick_state.DbWrap.{tick_puts}
use uniswapv3_tick_state.DbWrap.Contents.{view_of, IsWellFormed}
use uniswapv3_tick_state.DbWrap.Puts.{
  view-put_finish, wf-put_finish, view-put_height, wf-put_height, view-put_current, wf-put_current,
  view-put_spacing, wf-put_spacing,
}
use uniswapv3_tick_state.DbWrap.TickPuts.{view-put_tick, wf-put_tick, view-tick_puts, wf-tick_puts}
use uniswapv3_tick_state.DbWrap.Deletes.{view-deletes, wf-deletes, deletes}

module _ (t : AddressType) (e : Engine) (laws : EngineLaws e) where
  open t use {Address}
  open laws use {find, put_ok, find-put, write_ok, find-write}

  abbrev IsWf : e.State → Type 0
  IsWf s = IsWellFormed t (find s)

  abbrev view : e.State → View Address
  view s = view_of t (find s)

  -- An action that ends well in a well-formed state with the view `v`.
  abbrev Leads : Action e.State (Unit {0}) → e.State → View Address → Type 0
  Leads m s v = ((m s).0 ≡ ok tt) × IsWf (m s).1 × (view (m s).1 ≡ v)

  put-Leads :
      (k b : Bytes) (s : e.State) (v : View Address)
      → IsWellFormed t (contents_put k b (find s))
      → view_of t (contents_put k b (find s)) ≡ v
      → Leads (e.put k b) s v
  put-Leads k b s v w h =
      let step : find (e.put k b s).1 ≡ contents_put k b (find s) = fun_ext (find-put k b s) in
      (put_ok k b s, subst (IsWellFormed t) (sym step) w, ap (view_of t) step ∙ h)

  write-Leads :
      (ops : List BatchOp) (s : e.State) (v : View Address)
      → IsWellFormed t (apply_ops ops (find s))
      → view_of t (apply_ops ops (find s)) ≡ v
      → Leads (e.write ops) s v
  write-Leads ops s v w h =
      let step : find (e.write ops s).1 ≡ apply_ops ops (find s) = fun_ext (find-write ops s) in
      (write_ok ops s, subst (IsWellFormed t) (sym step) w, ap (view_of t) step ∙ h)

  pub set_finish_height_lem :
      (h : ℕ) (s : e.State)
      → IsWf s
      → h < u64_mod
      → Leads (DbWrap.set_finish_height t e h) s (with_finish t h (view s))
  unfolding DbWrap.set_finish_height
  set_finish_height_lem h s w lt =
      put-Leads _ _ s _ (wf-put_finish t h (find s) lt w) (view-put_finish t h (find s) lt)

  pub set_height_lem :
      (a : Address) (h : ℕ) (s : e.State)
      → IsWf s
      → h < u64_mod
      → Leads (DbWrap.set_height t e a h) s (with_height t a h (view s))
  unfolding DbWrap.set_height
  set_height_lem a h s w lt =
      put-Leads _ _ s _ (wf-put_height t a h (find s) lt w) (view-put_height t a h (find s) lt)

  pub set_current_tick_lem :
      (a : Address) (n : ℤ) (s : e.State)
      → IsWf s
      → IsInt32 n
      → Leads (DbWrap.set_current_tick t e a n) s (with_current t a n (view s))
  unfolding DbWrap.set_current_tick
  set_current_tick_lem a n s w h =
      put-Leads _ _ s _ (wf-put_current t a n (find s) h w) (view-put_current t a n (find s) h)

  pub set_tick_spacing_lem :
      (a : Address) (n : ℤ) (s : e.State)
      → IsWf s
      → IsInt32 n
      → Leads (DbWrap.set_tick_spacing t e a n) s (with_spacing t a n (view s))
  unfolding DbWrap.set_tick_spacing
  set_tick_spacing_lem a n s w h =
      put-Leads _ _ s _ (wf-put_spacing t a n (find s) h w) (view-put_spacing t a n (find s) h)

  pub set_tick_state_lem :
      (a : Address) (ts : TickState) (s : e.State)
      → IsWf s
      → IsInt32 ts.tick
      → Leads (DbWrap.set_tick_state t e a ts) s (with_tick t a ts (view s))
  unfolding DbWrap.set_tick_state
  set_tick_state_lem a ts s w h =
      put-Leads _ _ s _ (wf-put_tick t a ts (find s) h w) (view-put_tick t a ts (find s) h)

  -- SetPoolState on well-formed contents, with int32 ticks, ends well in one batch and keeps the
  -- contents well formed: the pool's height, tick and spacing become the snapshot's, converted as
  -- the code converts them, its ticks are added to the stored ones in the order of the list, and
  -- every other pool stays.
  pub set_pool_state_lem :
      (a : Address) (p : PoolState) (s : e.State)
      → IsWf s
      → All (λ ts. IsInt32 ts.tick) p.tick_states
      → Leads (DbWrap.set_pool_state t e a p) s (with_pool t a p (view s))
  unfolding DbWrap.set_pool_state
  set_pool_state_lem a p s w h =
      let height = big_uint64 p.global.height in
      let lt = big_uint64-lt p.global.height in
      let tick = to_int32 (big_int64 p.global.tick) in
      let tick_int = to_int32-IsInt32 (big_int64 p.global.tick) in
      let spacing = to_int32 (big_int64 p.global.tick_spacing) in
      let spacing_int = to_int32-IsInt32 (big_int64 p.global.tick_spacing) in
      let c1 : Contents =
        contents_put (make_pool_height_key t a) (uint64_to_bytes height) (find s) in
      let c2 : Contents = contents_put (make_current_tick_key t a) (int32_to_bytes tick) c1 in
      let c3 : Contents = contents_put (make_tick_spacing_key t a) (int32_to_bytes spacing) c2 in
      write-Leads _ s _
        (wf-tick_puts t a p.tick_states c3 h (
          wf-put_spacing t a spacing c2 spacing_int
            (wf-put_current t a tick c1 tick_int (wf-put_height t a height (find s) lt w))))
        (view-tick_puts t a p.tick_states c3 h
          ∙ ap (with_ticks t a p.tick_states) (
              view-put_spacing t a spacing c2 spacing_int
              ∙ ap (with_spacing t a spacing) (
                  view-put_current t a tick c1 tick_int
                  ∙ ap (with_current t a tick) (view-put_height t a height (find s) lt))))

  -- DeletePoolState on well-formed contents ends well in one batch and keeps the contents well
  -- formed: the pool's height, tick and spacing read 0 again, its ticks from the least up to and
  -- without the highest are gone, and every other pool stays.
  pub delete_pool_state_lem :
      (a : Address) (s : e.State)
      → IsWf s
      → Leads (DbWrap.delete_pool_state t e a) s (without_pool t a (view s))
  unfolding DbWrap.delete_pool_state
  delete_pool_state_lem a s w =
      write-Leads (deletes t a) s _ (wf-deletes t a (find s) w) (view-deletes t a (find s))
