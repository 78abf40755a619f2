-- ===== src/ContractCaller/Reverted.antt =====
-- A lens contract that reverts, and what becomes of the block.
use uniswapv3_tick_state.Prelude.{
  ℕ, ◌≡◌, refl, ap, ◌∙◌, true, false, Option, some, List, [], ◌∷◌, ◌++◌, All,
}
use uniswapv3_tick_state.Result.{empty_output, ok, err, panic}
use uniswapv3_tick_state.Bytes.{Bytes}
use uniswapv3_tick_state.Address.{AddressType}
use uniswapv3_tick_state.Types.{Event}
use uniswapv3_tick_state.Db.{Db}
use uniswapv3_tick_state.Db.Contract.{DbLaws}
use uniswapv3_tick_state.PoolGetter.{Pair, get_pool_state, call_pool_state}
use uniswapv3_tick_state.PoolGetter.Answers.{is_served, get_pool_state-failed}
use uniswapv3_tick_state.Reactor.{is_ignorant_error}
use uniswapv3_tick_state.Reactor.Blocks.{block_of, react_block_event-unknown_pool}
use uniswapv3_tick_state.Pipeline.{or_fatal, put_block_event}
use uniswapv3_tick_state.ContractCaller.{
  Answer, answered, failed, is_retryable_err, call_contract, Node, lens_of,
}

-- A failure that is worth a retry.
abbrev pub Retries : Answer → Type 0
Retries (answered b) = ⊥
Retries (failed message) = is_retryable_err message ≡ true

-- The first attempt that is not worth a retry decides, whatever follows: bytes are returned, and an
-- error that is final gives no bytes.
call_contract-decided :
    (before after : List Answer) (message : Bytes)
    → All Retries before
    → is_retryable_err message ≡ false
    → call_contract (before ++ failed message ∷ after) ≡ ok []
unfolding call_contract
call_contract-decided [] after message h final = rw final refl
call_contract-decided (failed other ∷ before) after message h final =
    rw h.0 (call_contract-decided before after message h.1 final)
call_contract-decided (answered b ∷ before) after message h final = absurd h.0

module _ (t : AddressType) (db : Db t.Address) (laws : DbLaws t db) (node : Node t.Address)
    (get_pair : t.Address → Option Pair) where
  open t use {Address}
  open laws use {IsWf, view}

  call_pool_state-reverted :
      (a : Address) (request message : Bytes) (before after : List Answer)
      → node.pack a ≡ ok request
      → node.attempts request ≡ before ++ failed message ∷ after
      → All Retries before
      → is_retryable_err message ≡ false
      → call_pool_state (lens_of node) a ≡ err empty_output
  unfolding call_pool_state
  call_pool_state-reverted a request message before after packed asked h final =
      rw (packed, asked, call_contract-decided before after message h final) refl

  -- An event of a pool of this service that is not stored, for which the node says, after any
  -- failures that are retried, that the lens contract reverted or another final error: the process
  -- ends at this block, and neither the pool nor the block's height is stored.
  pub put_block_event-reverted :
      (h : ℕ) (e : Event Address) (es : List (Event Address)) (pair : Pair)
      (request message : Bytes) (before after : List Answer) (s : db.State)
      → IsWf s
      → (view s).height e.address ≡ 0
      → get_pair e.address ≡ some pair
      → is_served (some pair) ≡ true
      → node.pack e.address ≡ ok request
      → node.attempts request ≡ before ++ failed message ∷ after
      → All Retries before
      → is_retryable_err message ≡ false
      → put_block_event db (get_pool_state db (lens_of node) get_pair) (block_of h (e ∷ es)) s
        ≡ (panic, s)
  unfolding put_block_event is_ignorant_error
  put_block_event-reverted h e es pair request message before after s w missing known ours packed
        asked h1 final =
      let getter = get_pool_state db (lens_of node) get_pair in
      let fails =
        get_pool_state-failed t db laws (lens_of node) get_pair e.address pair empty_output s known
          ours w missing
          (call_pool_state-reverted e.address request message before after packed asked h1 final) in
      let unknown = laws.get_height_lem e.address s w ∙ ap (λ k. (ok k, s)) missing in
      ap (λ p. (or_fatal p.0, p.1))
        (react_block_event-unknown_pool db getter h e es s s s empty_output unknown fails)
