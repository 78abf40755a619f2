-- ===== src/Service/Lifecycle/Kept.antt =====
-- What the steps of a running service keep of the stored pools.
use mathlib.Core.Path.{subst}
use uniswapv3_tick_state.Prelude.{
  ℕ, zero, suc, ◌+◌, ◌<◌, ◌≡◌, refl, sym, ap, ◌∙◌, Bool, true, false, inl, inr, Bool-cases, Option,
  none, List, [], ◌∷◌, ◌++◌, ltb, u64_mod, All, arith,
}
use uniswapv3_tick_state.Result.{ok}
use uniswapv3_tick_state.Address.{AddressType, addr_eqb, addr_eqb→eq}
use uniswapv3_tick_state.Engine.{Engine}
use uniswapv3_tick_state.Engine.Laws.{EngineLaws}
use uniswapv3_tick_state.Types.{Event}
use uniswapv3_tick_state.Db.Contract.{View, with_finish, pool_of}
use uniswapv3_tick_state.Db.Only.{only, only-apply_all, only-with_pool, height-with_pool}
use uniswapv3_tick_state.DbWrap.Contents.{view_of, IsWellFormed}
use uniswapv3_tick_state.SafeDb.{Guarded}
use uniswapv3_tick_state.PoolGetter.{Pair, Lens, LensOutput, pool_of_output}
use uniswapv3_tick_state.Parser.{Abi, Receipt, BlockReceipt}
use uniswapv3_tick_state.Parser.Spec.{AbiLaws, events_of}
use uniswapv3_tick_state.Reactor.Spec.{apply_all, Stored}
use uniswapv3_tick_state.Reactor.Replay.{stored-apply_all}
use uniswapv3_tick_state.Dispatcher.Heights.{heights}
use uniswapv3_tick_state.Crawler.Invariant.{blocks_at}
use uniswapv3_tick_state.Service.{service_db, service_put_block}
use uniswapv3_tick_state.Service.Blocks.{contents_view, service_put_block_lem}
use uniswapv3_tick_state.Service.Feed.{apply_blocks, Follows}
use uniswapv3_tick_state.Service.Lifecycle.Requests.{request_read_lem, request_store_lem}

-- The test of a pool being stored.
abbrev pub is_stored : {A : Type 0} → View A → A → Bool
is_stored v a = ltb 0 (v.height a)

pub middle :
    {A : Type 0} (P : A → Type 0) (before : List A) (a : A) (after : List A)
    → All P (before ++ a ∷ after)
    → P a × All P (before ++ after)
middle P [] a after h = h
middle P (b ∷ before) a after h = let (is, rest) = middle P before a after h.1 in (is, (h.0, rest))

module _ (t : AddressType) (abi : Abi) where
  open t use {Address}

  -- A block at a height of the chain, with events of these pools alone.
  abbrev pub IsOfPools : (Address → Bool) → BlockReceipt Address → Type 0
  IsOfPools P b =
      (0 < b.height)
      × (b.height < u64_mod)
      × All (λ event. P event.address ≡ true) (events_of abi b.receipts)

  told_apart :
      (v : View Address) (es : List (Event Address))
      → Stored t v es
      → All (λ event. is_stored v event.address ≡ true) es
  told_apart v [] h = tt
  told_apart v (event ∷ es) h =
      let lt : 0 < v.height event.address = h.0.1 in (ground arith, told_apart v es h.1)

  pub blocks_at-IsOfPools :
      (node : ℕ → List (Receipt Address)) (v : View Address) (from n : ℕ)
      → 0 < from
      → from + n < u64_mod
      → All (Follows t abi node v) (heights from n)
      → All (IsOfPools (is_stored v)) (blocks_at node (heights from n))
  blocks_at-IsOfPools node v from zero pos_from lt follows = tt
  blocks_at-IsOfPools node v from (suc n) pos_from lt follows = (
    (pos_from, omega arith, told_apart v (events_of abi (node from)) follows.0),
    blocks_at-IsOfPools node v (suc from) n (omega arith) (omega arith) follows.1,
  )

  apply_blocks-snoc :
      (bs : List (BlockReceipt Address)) (b : BlockReceipt Address) (v : View Address)
      → apply_blocks t abi (bs ++ b ∷ []) v
        ≡ with_finish t b.height
            (apply_all t b.height (events_of abi b.receipts) (apply_blocks t abi bs v))
  apply_blocks-snoc [] b v = refl
  apply_blocks-snoc (c ∷ bs) b v = apply_blocks-snoc bs b _

  pools_alive :
      (P : Address → Bool) (v : View Address) (es : List (Event Address))
      → ((a : Address) → P a ≡ true → 0 < v.height a)
      → All (λ event. P event.address ≡ true) es
      → All (λ event. 0 < v.height event.address) es
  pools_alive P v [] alive h = tt
  pools_alive P v (event ∷ es) alive h = (alive event.address h.0, pools_alive P v es alive h.1)

module _ (t : AddressType) (e : Engine) (lens : Lens t.Address) (get_pair : t.Address → Option Pair)
    (abi : Abi) (laws : EngineLaws e) (abi_laws : AbiLaws abi) (v0 : View t.Address) where
  open t use {Address}

  -- The contents are well formed, the pools of the start are stored, and they are what the events
  -- of the blocks so far make of them.
  pub record Kept (blocks : List (BlockReceipt Address)) (inner : e.State) : Type 0 where
    pub wf : IsWellFormed t (laws.find inner)
    pub alive : (a : Address) → is_stored v0 a ≡ true → 0 < (view_of t (laws.find inner)).height a
    pub seen :
        only t (is_stored v0) (view_of t (laws.find inner))
        ≡ apply_blocks t abi blocks (only t (is_stored v0) v0)

  -- The next block passes, and its events come on top.
  pub put-Kept :
      (blocks : List (BlockReceipt Address)) (b : BlockReceipt Address)
      (s : Guarded Address e.State)
      → Kept blocks s.inner
      → IsOfPools t abi (is_stored v0) b
      → ((service_put_block t e lens get_pair abi b s).0 ≡ ok tt)
        × Kept (blocks ++ b ∷ []) (service_put_block t e lens get_pair abi b s).1.inner
  put-Kept blocks b s k (pos_h, lt, are) =
      let es = events_of abi b.receipts in
      let v = contents_view t laws s in
      let (r, w1, v1) =
        service_put_block_lem t e lens get_pair laws abi abi_laws b.height b.receipts s k.wf pos_h
          lt (pools_alive t abi (is_stored v0) v es k.alive are) in
      (
        r,
        record {
          wf = w1;
          alive = λ a is.
              subst (λ w. 0 < w.height a) (sym v1)
                (stored-apply_all t b.height es v a pos_h (k.alive a is));
          seen =
              ap (only t (is_stored v0)) v1
              ∙ ap (with_finish t b.height) (
                  only-apply_all t (is_stored v0) b.height es v are
                  ∙ ap (apply_all t b.height es) k.seen)
              ∙ sym (apply_blocks-snoc t abi blocks b (only t (is_stored v0) v0));
        },
      )

  pub read-Kept :
      (blocks : List (BlockReceipt Address)) (a : Address) (s : Guarded Address e.State)
      → Kept blocks s.inner
      → Kept blocks ((service_db t e lens get_pair).get_pool_state a s).1.inner
  read-Kept blocks a s k =
      let (ts, answer, same) = request_read_lem t e lens get_pair laws a s k.wf in
      subst (Kept blocks) (sym same) k

  -- A pool of the start is not missing.
  pub miss-Kept :
      (blocks : List (BlockReceipt Address)) (a : Address) (s : Guarded Address e.State)
      → Kept blocks s.inner
      → ((service_db t e lens get_pair).get_pool_state a s).0 ≡ ok none
      → is_stored v0 a ≡ false
  miss-Kept blocks a s k missing = elim (Bool-cases (is_stored v0 a)) [
    | inl is ↦
        let (ts, answer, same) = request_read_lem t e lens get_pair laws a s k.wf in
        let lt = k.alive a is in
        let no : ok (pool_of t (contents_view t laws s) a ts) ≡ ok none = sym answer ∙ missing in
        absurd (grind arith)
    | inr is_not ↦ is_not
  ]

  pub store-Kept :
      (blocks : List (BlockReceipt Address)) (a : Address) (o : LensOutput)
      (s : Guarded Address e.State)
      → Kept blocks s.inner
      → is_stored v0 a ≡ false
      → Kept blocks ((service_db t e lens get_pair).set_pool_state a (pool_of_output o) s).1.inner
  store-Kept blocks a o s k other =
      let (w1, v1) = request_store_lem t e lens get_pair laws a o s k.wf in
      let v = contents_view t laws s in
      record {
        wf = w1;
        alive = λ b is. elim (Bool-cases (addr_eqb t a b)) [
          | inl same ↦ absurd (cc (sym (ap (is_stored v0) (addr_eqb→eq t a b same)) ∙ other, is))
          | inr apart ↦
              subst (λ w. 0 < w.height b) (sym v1)
                (subst (λ h. 0 < h) (sym (height-with_pool t a b (pool_of_output o) v apart))
                  (k.alive b is))
        ];
        seen =
            ap (only t (is_stored v0)) v1
            ∙ only-with_pool t (is_stored v0) a (pool_of_output o) v other
            ∙ k.seen;
      }
