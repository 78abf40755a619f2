-- ===== src/PoolGetter/Missing.antt =====
-- A block with an event of a pool that is not stored and cannot be had.
use uniswapv3_tick_state.Prelude.{
  ℕ, ◌≡◌, refl, ap, ◌∙◌, Bool-cases, inl, inr, true, false, Option, none, some, List, ◌∷◌,
  if◌then◌else◌,
}
use uniswapv3_tick_state.Result.{
  Error, pair_not_found, pair_filtered, not_v3_pool, gob_version, unknown_log_topic,
  parser_not_found, wrong_topic_len, wrong_data_unpack_len, empty_output, foreign, ok, err,
}
use uniswapv3_tick_state.Address.{AddressType}
use uniswapv3_tick_state.Types.{Event}
use uniswapv3_tick_state.Db.{Db}
use uniswapv3_tick_state.Db.Contract.{DbLaws}
use uniswapv3_tick_state.PoolGetter.{Pair, Lens, get_pool_state, call_pool_state}
use uniswapv3_tick_state.PoolGetter.Answers.{
  is_served, get_pool_state-refused, get_pool_state-failed,
}
use uniswapv3_tick_state.Reactor.{is_ignorant_error, react_block_event}
use uniswapv3_tick_state.Reactor.Blocks.{block_of, react_block_event-unknown_pool}

-- What a call of the lens contract fails with.
abbrev pub IsOfLens : Error → Type 0
IsOfLens empty_output = Unit
IsOfLens (foreign code) = Unit
IsOfLens _ = ⊥

of_lens-kept : (x : Error) → IsOfLens x → is_ignorant_error x ≡ false
unfolding is_ignorant_error
of_lens-kept empty_output of_lens = refl
of_lens-kept (foreign code) of_lens = refl
of_lens-kept pair_not_found of_lens = absurd of_lens
of_lens-kept pair_filtered of_lens = absurd of_lens
of_lens-kept not_v3_pool of_lens = absurd of_lens
of_lens-kept gob_version of_lens = absurd of_lens
of_lens-kept unknown_log_topic of_lens = absurd of_lens
of_lens-kept parser_not_found of_lens = absurd of_lens
of_lens-kept wrong_topic_len of_lens = absurd of_lens
of_lens-kept wrong_data_unpack_len of_lens = absurd of_lens

served_pair :
    (o : Option Pair)
    → is_served o ≡ true
    → (pair : Pair) × (o ≡ some pair) × (is_served (some pair) ≡ true)
served_pair none ours = cc
served_pair (some pair) ours = (pair, refl, ours)

module _ (t : AddressType) (db : Db t.Address) (laws : DbLaws t db) (lens : Lens t.Address)
    (get_pair : t.Address → Option Pair) where
  open t use {Address}
  open laws use {IsWf, view}

  -- A block that begins with an event of a pool that is not stored, and for which the lens contract
  -- fails, the pools being had by GetPoolState over a database that keeps the contract of DB. Where the
  -- service does not serve the pool, as its pair is unknown, filtered or not of version 3, the block goes
  -- on with the next event and the state unchanged; where it serves it, the block ends with the
  -- lens's error, the state unchanged.
  pub react_block_event-missing_pool :
      (h : ℕ) (e : Event Address) (es : List (Event Address)) (x : Error) (s : db.State)
      → IsWf s
      → (view s).height e.address ≡ 0
      → call_pool_state lens e.address ≡ err x
      → IsOfLens x
      → react_block_event db (get_pool_state db lens get_pair) (block_of h (e ∷ es)) s ≡ (
          if is_served (get_pair e.address)
          then (err x, s)
          else react_block_event db (get_pool_state db lens get_pair) (block_of h es) s)
  react_block_event-missing_pool h e es x s w missing fails of_lens =
      let unknown = laws.get_height_lem e.address s w ∙ ap (λ k. (ok k, s)) missing in
      elim (Bool-cases (is_served (get_pair e.address))) [
        | inl ours ↦
            let (pair, known, served) = served_pair (get_pair e.address) ours in
            let failed =
              get_pool_state-failed t db laws lens get_pair e.address pair x s known served w
                missing fails in
            rw
              (
                ours,
                react_block_event-unknown_pool db (get_pool_state db lens get_pair) h e es s s s x
                    unknown failed,
                of_lens-kept x of_lens,
              )
              refl
        | inr not_ours ↦
            let (y, refused, skips) =
              get_pool_state-refused db lens get_pair e.address s not_ours in
            rw
              (
                not_ours,
                react_block_event-unknown_pool db (get_pool_state db lens get_pair) h e es s s s y
                    unknown refused,
                skips,
              )
              refl
      ]
