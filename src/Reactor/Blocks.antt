-- ===== src/Reactor/Blocks.antt =====
-- `ReactBlockEvent` over a database that keeps its contract, and on its error paths.
use uniswapv3_tick_state.Prelude.{
  ℕ, ◌<◌, ◌≡◌, refl, sym, ap, ◌∙◌, false, inl, inr, List, [], ◌∷◌, leb, u64_mod, if◌then◌else◌,
  Bool-cases, All, arith,
}
use uniswapv3_tick_state.Result.{Error, ok, err, Action}
use uniswapv3_tick_state.Address.{AddressType}
use uniswapv3_tick_state.Types.{Event, BlockEvent, PoolState}
use uniswapv3_tick_state.Db.{Db}
use uniswapv3_tick_state.Db.Contract.{DbLaws, with_finish, with_height}
use uniswapv3_tick_state.Reactor.{is_ignorant_error, react_one, react_events, react_block_event}
use uniswapv3_tick_state.Reactor.Spec.{apply_event, apply_one, apply_all, Stored}
use uniswapv3_tick_state.Reactor.Steps.{Leads, react_one-Leads}
use uniswapv3_tick_state.Reactor.Replay.{
  Stored-apply_one, apply_all_twice, apply_all-same_pool, Stored-apply_all, apply_all-with_finish,
}

abbrev pub block_of : {A : Type 0} → ℕ → List (Event A) → BlockEvent A
block_of h es = record { height = h; events = es }

module _ (t : AddressType) (db : Db t.Address) (laws : DbLaws t db)
    (get_pool : t.Address → Action db.State PoolState) where
  open t use {Address}
  open laws use {IsWf, view}

  react_events-Leads :
      (h : ℕ) (es : List (Event Address)) (s : db.State)
      → IsWf s
      → 0 < h
      → h < u64_mod
      → Stored t (view s) es
      → Leads t db laws get_pool (react_events db get_pool h es) s (apply_all t h es (view s))
  unfolding react_events apply_all
  react_events-Leads h [] s w pos_h lt st = (refl, w, refl)
  react_events-Leads h (e ∷ es) s w pos_h lt st =
      let (r, w1, v1) = react_one-Leads t db laws get_pool h e s w lt st.0.0 st.0.1 in
      let s1 = (react_one db get_pool h e s).1 in
      let st1 : Stored t (view s1) es = rw v1 (Stored-apply_one t h e (view s) es pos_h st.1) in
      let (r2, w2, v2) = react_events-Leads h es s1 w1 pos_h lt st1 in
      rw r (r2, w2, v2 ∙ ap (apply_all t h es) v1)

  -- A block of events of known types, whose pools are stored, ends well: the pools are changed as
  -- the specification says, event by event, and the block's height is stored as finished.
  pub react_block_event_lem :
      (h : ℕ) (es : List (Event Address)) (s : db.State)
      → IsWf s
      → 0 < h
      → h < u64_mod
      → Stored t (view s) es
      → ((react_block_event db get_pool (block_of h es) s).0 ≡ ok tt)
        × IsWf (react_block_event db get_pool (block_of h es) s).1
        × (view (react_block_event db get_pool (block_of h es) s).1
            ≡ with_finish t h (apply_all t h es (view s)))
  unfolding react_block_event
  react_block_event_lem h es s w pos_h lt st =
      let (r, w1, v1) = react_events-Leads h es s w pos_h lt st in
      let s1 = (react_events db get_pool h es s).1 in
      let (r2, w2, v2) = laws.set_finish_height_lem h s1 w1 lt in
      rw r (r2, w2, v2 ∙ ap (with_finish t h) v1)

  -- A block that is given a second time, events of known types and pools stored, ends well and
  -- leaves the view of the database as the first time left it.
  pub react_block_event_twice :
      (h : ℕ) (es : List (Event Address)) (s : db.State)
      → IsWf s
      → 0 < h
      → h < u64_mod
      → Stored t (view s) es
      → let s1 = (react_block_event db get_pool (block_of h es) s).1 in
        ((react_block_event db get_pool (block_of h es) s1).0 ≡ ok tt)
        × (view (react_block_event db get_pool (block_of h es) s1).1 ≡ view s1)
  react_block_event_twice h es s w pos_h lt st =
      let (r, w1, v1) = react_block_event_lem h es s w pos_h lt st in
      let s1 = (react_block_event db get_pool (block_of h es) s).1 in
      let st1 : Stored t (view s1) es = rw v1 (Stored-apply_all t h es es (view s) pos_h st) in
      let (r2, w2, v2) = react_block_event_lem h es s1 w1 pos_h lt st1 in
      let once = apply_all t h es (view s) in
      (
        r2,
        v2
            ∙ ap (λ v. with_finish t h (apply_all t h es v)) v1
            ∙ ap (with_finish t h) (
                apply_all-with_finish t h h es once
                ∙ ap (with_finish t h) (apply_all_twice t h es (view s)))
            ∙ sym v1,
      )

  -- In a block whose events are all of one stored pool below the block's height, the first event
  -- alone changes the pool: the events behind it are lost, since the height that the first one
  -- stores is the block's own.
  pub react_block_event_same_pool :
      (h : ℕ) (e : Event Address) (es : List (Event Address)) (s : db.State)
      → IsWf s
      → h < u64_mod
      → Stored t (view s) (e ∷ es)
      → (view s).height e.address < h
      → All (λ f. f.address ≡ e.address) es
      → view (react_block_event db get_pool (block_of h (e ∷ es)) s).1
        ≡ with_finish t h (with_height t e.address h (apply_event t e (view s)))
  unfolding apply_one
  react_block_event_same_pool h e es s w lt st below same =
      let (r, w1, v1) = react_block_event_lem h (e ∷ es) s w (omega arith) lt st in
      let not_reached : leb h ((view s).height e.address) ≡ false = ground arith in
      v1
      ∙ ap (with_finish t h)
          (apply_all-same_pool t h e es (view s) same ∙ (unfold apply_one in one h e s not_reached))
    where
      one :
          (h : ℕ) (e : Event Address) (s : db.State)
          → leb h ((view s).height e.address) ≡ false
          → apply_one t h e (view s) ≡ with_height t e.address h (apply_event t e (view s))
      one h e s below = rw below refl

-- An event of an unknown pool, whose state cannot be had: over any database, an error that says
-- that the pool is none of ours skips the event, and the block goes on with the next; any other
-- error ends the block with that error, and no height is stored as finished.
pub react_block_event-unknown_pool :
    {A : Type 0} (db : Db A) (get_pool : A → Action db.State PoolState) (h : ℕ) (e : Event A)
    (es : List (Event A)) (s s1 s2 : db.State) (x : Error)
    → db.get_height e.address s ≡ (ok 0, s1)
    → get_pool e.address s1 ≡ (err x, s2)
    → react_block_event db get_pool (block_of h (e ∷ es)) s ≡ (
        if is_ignorant_error x
        then react_block_event db get_pool (block_of h es) s2
        else (err x, s2))
unfolding react_block_event
react_block_event-unknown_pool db get_pool h e es s s1 s2 x unknown fails =
    elim (Bool-cases (is_ignorant_error x)) [
      | inl ours ↦ rw (unknown, fails, ours) refl
      | inr other ↦ rw (unknown, fails, other) refl
    ]
