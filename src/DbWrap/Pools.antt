-- ===== src/DbWrap/Pools.antt =====
-- What the stored pools are, call after call: the methods of `rocksDBWrap` together.
use mathlib.Core.Option
use uniswapv3_tick_state.Prelude.{
  ℕ, ◌<◌, ◌^◌, ◌≡◌, refl, sym, ap, ◌∙◌, Bool, true, false, not, ◌&&◌, Option, none, some, List, [],
  ◌∷◌, ◌==◌, ℤ, pos, eqb_ℤ, eqb_ℤ→eq, ltb_ℤ, IsInt32, to_int32, to_int32_self, u64_mod,
  if◌then◌else◌, &&-eq-true, All, arith,
}
use uniswapv3_tick_state.Result.{Result, ok}
use uniswapv3_tick_state.Address.{AddressType, addr_eqb, addr_eqb_refl}
use uniswapv3_tick_state.Engine.{Engine}
use uniswapv3_tick_state.Engine.Laws.{EngineLaws}
use uniswapv3_tick_state.TickKey.{min_tick, max_tick}
use uniswapv3_tick_state.Types.{
  Token, big_int64_self, big_uint64_self, to_int64_self, TickState, PoolState, big_int64,
  big_uint64,
}
use uniswapv3_tick_state.Db.Contract.{
  View, Ascend, find_tick, at_tick, in_ticks, pool_of, with_height, with_current, with_spacing,
  with_ticks, with_pool,
}
use uniswapv3_tick_state.Db.Unique.{Ascend-unique, tick-with_ticks, globals-with_ticks, or_else}
use uniswapv3_tick_state.DbWrap
use uniswapv3_tick_state.DbWrap.Contents.{view_of, IsWellFormed}
use uniswapv3_tick_state.DbWrap.Range.{in_ticks-IsInt32}
use uniswapv3_tick_state.DbWrap.Reads.{get_tick_state_lem, get_tick_states_lem, get_pool_state_lem}
use uniswapv3_tick_state.DbWrap.Writes.{
  set_tick_state_lem, set_pool_state_lem, delete_pool_state_lem,
}

abbrev pub pool : Option Token → Option Token → ℕ → ℤ → ℤ → List TickState → PoolState
pool t0 t1 h m n ts = record {
  token0 = t0;
  token1 = t1;
  global = record { height = pos h; tick_spacing = m; tick = n };
  tick_states = ts;
}

-- A test moved out of the result.
pull_if :
    (q : Bool) (ts : TickState) (n : ℤ) (o : Option ℤ)
    → (q ≡ true → ts.tick ≡ n)
    → ◌≡◌ {A = Result (Option TickState)}
        (ok (Option.map (at_tick n) (if q then some ts.liquidity_net else o)))
        (if q then ok (some ts) else ok (Option.map (at_tick n) o))
pull_if true ts n o h =
    λ i. ok (some (record { tick = sym (h refl) i; liquidity_net = ts.liquidity_net }))
pull_if false ts n o h = refl

last_left :
    (n z : ℤ) (q : Bool) (o : Option ℤ)
    → q ≡ true
    → (eqb_ℤ max_tick n ≡ true → o ≡ some z)
    → (if in_ticks n
        then if q && (not (ltb_ℤ n min_tick) && ltb_ℤ n max_tick) then none else o
        else none)
      ≡ (if eqb_ℤ max_tick n then some z else none)
last_left n z q o own h = rw own (ground arith)

find_outside :
    (n : ℤ) (ts : List TickState)
    → All (λ x. in_ticks x.tick ≡ true) ts
    → find_tick n ts ≡ (if in_ticks n then find_tick n ts else none)
find_outside n [] h = ground arith
find_outside n (x ∷ ts) h = ground (arith, find_outside n ts h.1)

or_none : (o : Option ℤ) → or_else o none ≡ o
or_none none = refl
or_none (some z) = refl

in_ticks-All :
    (ts : List TickState) → All (λ x. in_ticks x.tick ≡ true) ts → All (λ x. IsInt32 x.tick) ts
in_ticks-All [] h = tt
in_ticks-All (x ∷ ts) h = (in_ticks-IsInt32 x.tick h.0, in_ticks-All ts h.1)

module _ (t : AddressType) (e : Engine) (laws : EngineLaws e) where
  open t use {Address}

  abbrev IsWf : e.State → Type 0
  IsWf s = IsWellFormed t (laws.find s)

  abbrev view : e.State → View Address
  view s = view_of t (laws.find s)

  -- After SetTickState, GetTickState of the same pool and tick returns the tick state that was set,
  -- and of any other pool or tick what it returned before; on well-formed contents and int32 ticks.
  pub get_tick_state-set_tick_state :
      (a b : Address) (ts : TickState) (n : ℤ) (s : e.State)
      → IsWf s
      → IsInt32 ts.tick
      → IsInt32 n
      → (DbWrap.get_tick_state t e b n (DbWrap.set_tick_state t e a ts s).1).0 ≡ (
          if addr_eqb t a b && eqb_ℤ ts.tick n
          then ok (some ts)
          else (DbWrap.get_tick_state t e b n s).0)
  get_tick_state-set_tick_state a b ts n s w h hn =
      let (r, w1, v1) = set_tick_state_lem t e laws a ts s w h in
      let s1 = (DbWrap.set_tick_state t e a ts s).1 in
      ap (λ p. p.0) (get_tick_state_lem t e laws b n s1 w1 hn)
      ∙ ap (λ v. ok (Option.map (at_tick n) (v.tick b n))) v1
      ∙ pull_if (addr_eqb t a b && eqb_ℤ ts.tick n) ts n ((view s).tick b n)
          (λ q. eqb_ℤ→eq ts.tick n (&&-eq-true _ _ q).1)
      ∙ ap (λ p. if addr_eqb t a b && eqb_ℤ ts.tick n then ok (some ts) else p.0)
          (sym (get_tick_state_lem t e laws b n s w hn))

  module _ (a : Address) (t0 t1 : Option Token) (h : ℕ) (m n : ℤ) (ts : List TickState)
      (v : View Address) (pos_h : 0 < h) (lt : h < 2 ^ 63) (hm : IsInt32 m) (hn : IsInt32 n) where
    -- What is read of globals that are known.
    pool_of_globals :
        (v1 : View Address)
        → v1.height a ≡ h
        → v1.current a ≡ n
        → v1.spacing a ≡ m
        → pool_of t v1 a ts ≡ some (pool none none h m n ts)
    pool_of_globals v1 eh ec es =
        let not_zero : (h == 0) ≡ false = ground arith in
        rw (eh, not_zero, ec, es, to_int64_self h lt) refl

    -- What is read of the globals that were written.
    pool_of-with_pool :
        pool_of t (with_pool t a (pool t0 t1 h m n ts) v) a ts ≡ some (pool none none h m n ts)
    pool_of-with_pool =
        let vh = with_height t a (big_uint64 (pos h)) v in
        let vc = with_current t a (to_int32 (big_int64 n)) vh in
        let vs = with_spacing t a (to_int32 (big_int64 m)) vc in
        let (gh, gc, gs) = globals-with_ticks t a ts vs in
        let own = addr_eqb_refl t a in
        let small : h < u64_mod = omega arith in
        pool_of_globals (with_ticks t a ts vs)
          (ap (λ f. f a) gh
            ∙ ap (λ q. if q then big_uint64 (pos h) else v.height a) own
            ∙ big_uint64_self h small)
          (ap (λ f. f a) gc
            ∙ ap (λ q. if q then to_int32 (big_int64 n) else v.current a) own
            ∙ ap to_int32 (big_int64_self n hn)
            ∙ to_int32_self n hn)
          (ap (λ f. f a) gs
            ∙ ap (λ q. if q then to_int32 (big_int64 m) else v.spacing a) own
            ∙ ap to_int32 (big_int64_self m hm)
            ∙ to_int32_self m hm)

  -- Where the pool has no tick stored, GetPoolState after SetPoolState returns the pool that was
  -- set, without its tokens, which are not stored: for a height above 0 that fits an int64, a tick
  -- and a spacing that fit an int32, and ascending ticks within the bounds of Uniswap.
  pub get_pool_state-set_pool_state :
      (a : Address) (t0 t1 : Option Token) (h : ℕ) (m n : ℤ) (ts : List TickState) (s : e.State)
      → IsWf s
      → ((k : ℤ) → (view s).tick a k ≡ none)
      → 0 < h
      → h < 2 ^ 63
      → IsInt32 m
      → IsInt32 n
      → Ascend ts
      → All (λ x. in_ticks x.tick ≡ true) ts
      → (DbWrap.get_pool_state t e a (DbWrap.set_pool_state t e a (pool t0 t1 h m n ts) s).1).0
        ≡ ok (some (pool none none h m n ts))
  get_pool_state-set_pool_state a t0 t1 h m n ts s w fresh pos_h lt hm hn asc inside =
      let p = pool t0 t1 h m n ts in
      let (r, w1, v1) = set_pool_state_lem t e laws a p s w (in_ticks-All ts inside) in
      let s1 = (DbWrap.set_pool_state t e a p s).1 in
      let (ts1, reads, lists) = get_pool_state_lem t e laws a s1 w1 in
      let same : ts1 ≡ ts = Ascend-unique ts1 ts lists.ascend asc λ k.
        lists.found k
        ∙ ap (λ x. if in_ticks k then x.tick a k else none) v1
        ∙ ap (λ x. if in_ticks k then x else none)
            (tick-with_ticks t a ts _ k asc
              ∙ ap (or_else (find_tick k ts)) (fresh k)
              ∙ or_none (find_tick k ts))
        ∙ sym (find_outside k ts inside) in
      ap (λ x. x.0) reads
      ∙ ap (λ l. ok (pool_of t (view s1) a l)) same
      ∙ ap (λ x. ok (pool_of t x a ts)) v1
      ∙ ap ok (pool_of-with_pool a t0 t1 h m n ts (view s) pos_h lt hm hn)

  -- After DeletePoolState no tick of the pool is listed but the highest: a tick state at max_tick
  -- outlives the deletion, since the batch deletes a range that leaves its end.
  pub get_tick_states-delete_pool_state :
      (a : Address) (z : ℤ) (s : e.State)
      → IsWf s
      → (view s).tick a max_tick ≡ some z
      → DbWrap.get_tick_states t e a (DbWrap.delete_pool_state t e a s).1
        ≡ (ok (at_tick max_tick z ∷ []), (DbWrap.delete_pool_state t e a s).1)
  get_tick_states-delete_pool_state a z s w stored =
      let (r, w1, v1) = delete_pool_state_lem t e laws a s w in
      let s1 = (DbWrap.delete_pool_state t e a s).1 in
      let (ts, reads, lists) = get_tick_states_lem t e laws a s1 w1 in
      let only : ts ≡ at_tick max_tick z ∷ [] =
        Ascend-unique ts (at_tick max_tick z ∷ []) lists.ascend tt λ n.
          lists.found n
          ∙ ap (λ v. if in_ticks n then v.tick a n else none) v1
          ∙ last_left n z (addr_eqb t a a) ((view s).tick a n) (addr_eqb_refl t a)
              (λ q. ap ((view s).tick a) (sym (eqb_ℤ→eq max_tick n q)) ∙ stored) in
      reads ∙ ap (λ l. (ok l, s1)) only
