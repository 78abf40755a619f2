-- ===== src/Service/Lifecycle/Resume.antt =====
-- A service that starts again after it was stopped.
use uniswapv3_tick_state.Prelude.{
  ℕ, suc, ◌+◌, ◌<◌, ◌≡◌, sym, ap, ◌∙◌, Option, List, ◌==◌, if◌then◌else◌, u64_mod, All,
}
use uniswapv3_tick_state.Result.{Result, ok}
use uniswapv3_tick_state.Address.{AddressType}
use uniswapv3_tick_state.Engine.{Engine}
use uniswapv3_tick_state.Engine.Laws.{EngineLaws}
use uniswapv3_tick_state.DbWrap.Contents.{IsWellFormed}
use uniswapv3_tick_state.SafeDb.{Guarded}
use uniswapv3_tick_state.PoolGetter.{Pair, Lens}
use uniswapv3_tick_state.Parser.{Abi, Receipt}
use uniswapv3_tick_state.Parser.Spec.{AbiLaws}
use uniswapv3_tick_state.Dispatcher.Heights.{heights}
use uniswapv3_tick_state.Dispatcher.System.{returned}
use uniswapv3_tick_state.Crawler.Invariant.{blocks_at}
use uniswapv3_tick_state.Service.{first_height}
use uniswapv3_tick_state.Service.Blocks.{contents_view}
use uniswapv3_tick_state.Service.Feed.{apply_blocks, Follows}
use uniswapv3_tick_state.Service.Restart.{first_height_lem, next_height}
use uniswapv3_tick_state.Service.Lifecycle.{closed, Life, start_life, Lives}
use uniswapv3_tick_state.Db.Only.{only}
use uniswapv3_tick_state.Service.Lifecycle.Kept.{is_stored}
use uniswapv3_tick_state.Service.Lifecycle.Holds.{start-Holds, Lives-Holds}
use uniswapv3_tick_state.Service.Lifecycle.Shutdown.{shutdown_lem}

module _ (t : AddressType) (e : Engine) (lens : Lens t.Address) (get_pair : t.Address → Option Pair)
    (abi : Abi) (laws : EngineLaws e) (abi_laws : AbiLaws abi) (node : ℕ → List (Receipt t.Address))
    (pool_size : ℕ) where
  open t use {Address}

  -- A service that ended by FinInput, after whatever interleaving of dispatcher, crawler, parser and
  -- reactor with requests to the API, until then, that read pools and store the lens contract's
  -- answers for missing ones; its store well formed at the start, the engine and the ABI keeping
  -- their documented laws, and the events of the node's blocks all of pools stored at the start. The
  -- dispatcher's loop returned at a next height, with all heights put from the first on up to it; the
  -- store is well formed, and the pools that were stored at the start are what the events of just
  -- these heights' blocks make of them, block by block. Where at least one height was dispatched, the
  -- next start without a configured height begins with just that next one, and else as a start before
  -- would have.
  pub resume_lem :
      (block_number from : ℕ) (s : Guarded Address e.State)
      (p : Life Address (Guarded Address e.State)) (latest : Result ℕ)
      → suc block_number < u64_mod
      → 0 < from
      → from < u64_mod
      → IsWellFormed t (laws.find s.inner)
      → ((n : ℕ) → All (Follows t abi node (contents_view t laws s)) (heights from n))
      → Lives t e lens get_pair abi node pool_size
          (start_life t e lens get_pair abi node pool_size block_number from s)
          p
      → p.phase ≡ closed
      → (n : ℕ) × (p.dispatcher.puts ≡ heights from n)
        × (p.dispatcher.loop ≡ returned (from + n))
        × IsWellFormed t (laws.find p.store.inner)
        × (only t (is_stored (contents_view t laws s)) (contents_view t laws p.store)
            ≡ apply_blocks t abi
                (blocks_at node (heights from n))
                (only t (is_stored (contents_view t laws s)) (contents_view t laws s)))
        × ((first_height t e lens get_pair latest 0 p.store).0
            ≡ (if n == 0 then (first_height t e lens get_pair latest 0 s).0 else ok (from + n)))
  resume_lem block_number from s p latest room pos_from fits w follows lives over =
      let h =
        Lives-Holds t e lens get_pair abi node pool_size laws abi_laws from s pos_from follows _ p
          (start-Holds t e lens get_pair abi node pool_size laws abi_laws from s pos_from follows
            block_number room fits w)
          lives in
      let (n, puts, loop, lt, all_put) =
        shutdown_lem t e lens get_pair abi node pool_size laws abi_laws from s pos_from follows p h
          over in
      let v = contents_view t laws s in
      let seen = h.kept.seen ∙ ap (λ bs. apply_blocks t abi bs (only t (is_stored v) v)) all_put in
      (
        n,
        puts,
        loop,
        h.kept.wf,
        seen,
        first_height_lem t e lens get_pair abi laws abi_laws node latest 0 p.store h.kept.wf
            ∙ next_height t e lens get_pair abi laws abi_laws node latest _ from n
                (only t (is_stored v) v) (only t (is_stored v) (contents_view t laws p.store))
                pos_from lt seen
                (sym (first_height_lem t e lens get_pair abi laws abi_laws node latest 0 s w)),
      )
