-- ===== src/Service/Blocks.antt =====
-- A block of receipts in the service as `main` puts it together.
use mathlib.Core.Path.{subst}
use uniswapv3_tick_state.Prelude.{ℕ, ◌<◌, ◌≡◌, sym, ap, ◌∙◌, Option, List, u64_mod, All}
use uniswapv3_tick_state.Result.{ok}
use uniswapv3_tick_state.Address.{AddressType}
use uniswapv3_tick_state.Engine.{Engine}
use uniswapv3_tick_state.Engine.Laws.{EngineLaws}
use uniswapv3_tick_state.Db.Contract.{View, with_finish}
use uniswapv3_tick_state.DbWrap.{new_db}
use uniswapv3_tick_state.DbWrap.Contents.{view_of, IsWellFormed}
use uniswapv3_tick_state.DbWrap.Refines.{new_db-DbLaws}
use uniswapv3_tick_state.SafeDb.{Guarded}
use uniswapv3_tick_state.SafeDb.Refines.{put_block_receipt-Sim, get_pool_state-Sim}
use uniswapv3_tick_state.PoolGetter.{Pair, Lens, get_pool_state}
use uniswapv3_tick_state.Parser.{Abi, Receipt, BlockReceipt}
use uniswapv3_tick_state.Parser.Spec.{AbiLaws, events_of}
use uniswapv3_tick_state.Pipeline.Block.{put_block_receipt_lem}
use uniswapv3_tick_state.Reactor.Spec.{apply_all}
use uniswapv3_tick_state.Service.{service_put_block}

abbrev pub receipts_of : {A : Type 0} → ℕ → List (Receipt A) → BlockReceipt A
receipts_of h rs = record { height = h; receipts = rs }

-- What is stored behind the locks.
abbrev pub contents_view :
    (t : AddressType) {e : Engine} → EngineLaws e → Guarded t.Address e.State → View t.Address
contents_view t laws s = view_of t (laws.find s.inner)

module _ (t : AddressType) (e : Engine) (lens : Lens t.Address) (get_pair : t.Address → Option Pair)
    (laws : EngineLaws e) (abi : Abi) (abi_laws : AbiLaws abi) where
  open t use {Address}

  -- In the service as main puts it together, over an engine that keeps its documented laws and
  -- contents that are well formed, a block whose events are of stored pools goes from its receipts
  -- to the bytes in RocksDB without ending the process: the contents stay well formed, the pools
  -- read from them are changed by the events that the successful receipts log, in order, and the
  -- block's height is stored as finished.
  pub service_put_block_lem :
      (h : ℕ) (receipts : List (Receipt Address)) (s : Guarded Address e.State)
      → IsWellFormed t (laws.find s.inner)
      → 0 < h
      → h < u64_mod
      → All (λ event. 0 < (contents_view t laws s).height event.address) (events_of abi receipts)
      → ((service_put_block t e lens get_pair abi (receipts_of h receipts) s).0 ≡ ok tt)
        × IsWellFormed t
            (laws.find (service_put_block t e lens get_pair abi (receipts_of h receipts) s).1.inner)
        × (contents_view t laws
              (service_put_block t e lens get_pair abi (receipts_of h receipts) s).1
            ≡ with_finish t h (apply_all t h (events_of abi receipts) (contents_view t laws s)))
  unfolding service_put_block new_db-DbLaws
  service_put_block_lem h receipts s w pos_h lt stored =
      let db = new_db t e in
      let (same, inner) =
        (put_block_receipt-Sim t db _ (get_pool_state db lens get_pair)
            (get_pool_state-Sim t db lens get_pair) abi (receipts_of h receipts)).run
          s in
      let (r, w1, v1) =
        put_block_receipt_lem t db (new_db-DbLaws t e laws) (get_pool_state db lens get_pair) abi
          abi_laws h receipts s.inner w pos_h lt stored in
      (
        same ∙ r,
        subst (λ x. IsWellFormed t (laws.find x)) (sym inner) w1,
        ap (λ x. view_of t (laws.find x)) inner ∙ v1,
      )
