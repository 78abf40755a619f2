-- ===== src/Pipeline/Block.antt =====
-- From the receipts of a block to the stored pools.
use uniswapv3_tick_state.Prelude.{ℕ, ◌<◌, ◌≡◌, refl, List, [], ◌∷◌, u64_mod, All}
use uniswapv3_tick_state.Result.{ok, Action}
use uniswapv3_tick_state.Address.{AddressType}
use uniswapv3_tick_state.Types.{Event, PoolState}
use uniswapv3_tick_state.Db.{Db}
use uniswapv3_tick_state.Db.Contract.{View, DbLaws, with_finish}
use uniswapv3_tick_state.Parser.{Abi, Receipt}
use uniswapv3_tick_state.Parser.Spec.{AbiLaws, events_of}
use uniswapv3_tick_state.Parser.Logs.{parse_block_lem}
use uniswapv3_tick_state.Parser.Topics.{events_of-IsKnown}
use uniswapv3_tick_state.Reactor.Spec.{IsKnownType, Stored, apply_all}
use uniswapv3_tick_state.Reactor.Blocks.{react_block_event_lem}
use uniswapv3_tick_state.Pipeline.{put_block_receipt}

module _ (t : AddressType) (db : Db t.Address) (laws : DbLaws t db)
    (get_pool : t.Address → Action db.State PoolState) (abi : Abi) (abi_laws : AbiLaws abi) where
  open t use {Address}
  open laws use {IsWf, view}

  Stored-IsKnown :
      (v : View Address) (es : List (Event Address))
      → All (λ e. IsKnownType e.type) es
      → All (λ e. 0 < v.height e.address) es
      → Stored t v es
  Stored-IsKnown v [] known stored = tt
  Stored-IsKnown v (e ∷ es) known stored =
      ((known.0, stored.0), Stored-IsKnown v es known.1 stored.1)

  -- A block of receipts whose events are of stored pools goes through the parser and the reactor
  -- without ending the process, whatever else the receipts log: the pools are changed by the events
  -- that its successful receipts log, in order, and its height is stored as finished.
  pub put_block_receipt_lem :
      (h : ℕ) (receipts : List (Receipt Address)) (s : db.State)
      → IsWf s
      → 0 < h
      → h < u64_mod
      → All (λ e. 0 < (view s).height e.address) (events_of abi receipts)
      → ((put_block_receipt db get_pool abi (record { height = h; receipts = receipts }) s).0
          ≡ ok tt)
        × IsWf (put_block_receipt db get_pool abi (record { height = h; receipts = receipts }) s).1
        × (view (put_block_receipt db get_pool abi (record { height = h; receipts = receipts }) s).1
            ≡ with_finish t h (apply_all t h (events_of abi receipts) (view s)))
  unfolding put_block_receipt
  put_block_receipt_lem h receipts s w pos_h lt stored =
      let es = events_of abi receipts in
      let (r, w1, v1) =
        react_block_event_lem t db laws get_pool h es s w pos_h lt
          (Stored-IsKnown (view s) es (events_of-IsKnown abi receipts) stored) in
      rw (parse_block_lem abi abi_laws h receipts, r) (refl, w1, v1)
