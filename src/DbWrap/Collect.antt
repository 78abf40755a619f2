-- ===== src/DbWrap/Collect.antt =====
-- `GetTickStates` over the walk: the entries of one pool are collected under its address, and the
-- walk from its lowest key sees the pool's entries alone.
use uniswapv3_tick_state.Prelude.{
  ◌≡◌, refl, sym, ap, ◌∙◌, true, false, Option, none, some, List, [], ◌∷◌, ◌++◌, ℤ, ltb_ℤ, IsInt32,
  arith, All, take-append, append_assoc, append-nil,
}
use uniswapv3_tick_state.Result.{ok, bind}
use uniswapv3_tick_state.Bytes.{Bytes, bytes_ltb}
use uniswapv3_tick_state.Bytes.Order.{between_prefix, bytes_eqb_refl}
use uniswapv3_tick_state.Gob.{gob_encode, gob_decode-gob_encode}
use uniswapv3_tick_state.Address.{AddressType, addr_eqb_refl}
use uniswapv3_tick_state.Engine.{Cursor, entry, end}
use uniswapv3_tick_state.Engine.Laws.{Contents, cursor_find, Ascends}
use uniswapv3_tick_state.Engine.Cursors.{find-behind, AscendsFrom-Ascends}
use uniswapv3_tick_state.TickKey.{
  key_prefix_tick_state, int32_to_ordered_bytes, min_tick, max_tick, get_address,
  get_tick_state_key,
}
use uniswapv3_tick_state.TickKey.RoundTrip.{
  get_tick-get_tick_state_key, get_address-get_tick_state_key, bytes_to_tick_state_key_lem,
}
use uniswapv3_tick_state.Types.{TickState, new_tick_state, unmarshal_binary}
use uniswapv3_tick_state.TickKey.Order.{bytes_ltb-get_tick_state_key}
use uniswapv3_tick_state.Db.Contract.{in_ticks}
use uniswapv3_tick_state.DbWrap.{add, collected, collect_entries}
use uniswapv3_tick_state.DbWrap.Contents.{Encodes, IsWellFormed}
use uniswapv3_tick_state.DbWrap.Range.{PoolEntry, InPool, upto, entries_of}

module _ (t : AddressType) (a : t.Address) where
  decode_entry :
      (n z : ℤ)
      → unmarshal_binary (new_tick_state n) (gob_encode z)
        ≡ ok (record { tick = n; liquidity_net = z })
  unfolding unmarshal_binary new_tick_state
  decode_entry n z = rw (gob_decode-gob_encode z)

  -- Entries of one pool go to the list of that pool, in order.
  collect_entries-more :
      (l old : List TickState)
      → All (λ ts. IsInt32 ts.tick) l
      → collect_entries t (entries_of t a l) ((a, old) ∷ []) ≡ ok ((a, old ++ l) ∷ [])
  unfolding collect_entries entries_of add
  collect_entries-more [] old h = rw append-nil refl
  collect_entries-more (ts ∷ l) old h =
      rw
        (
          bytes_to_tick_state_key_lem,
          get_tick-get_tick_state_key t a ts.tick h.0,
          decode_entry ts.tick ts.liquidity_net,
          get_address-get_tick_state_key t a ts.tick,
          addr_eqb_refl t a,
        )
        (collect_entries-more l (old ++ ts ∷ []) h.1
          ∙ ap (λ x. ok ((a, x) ∷ [])) (append_assoc old (ts ∷ []) l))

  pub collected-entries_of :
      (l : List TickState)
      → All (λ ts. IsInt32 ts.tick) l
      → bind (collect_entries t (entries_of t a l) []) (λ c. ok (collected t a c)) ≡ ok l
  unfolding collect_entries entries_of add collected
  collected-entries_of [] h = refl
  collected-entries_of (ts ∷ l) h =
      rw
        (
          bytes_to_tick_state_key_lem,
          get_tick-get_tick_state_key t a ts.tick h.0,
          decode_entry ts.tick ts.liquidity_net,
          get_address-get_tick_state_key t a ts.tick,
          collect_entries-more l (ts ∷ []) h.1,
          addr_eqb_refl t a,
        )
        refl

Encodes-some {ℓ κ} :
    {A : Type ℓ} (P : A → Type κ) (encode : A → Bytes) (o : Option Bytes) (v : Bytes)
    → Encodes P encode o
    → o ≡ some v
    → (x : A) × P x × (v ≡ encode x)
Encodes-some P encode none v h e = cc
Encodes-some P encode (some w) v h e = let same : w ≡ v = cc in (h.0, h.1, sym same ∙ h.2)

module _ (t : AddressType) (a : t.Address) where
  -- A key between the bounds begins with the prefix and the address.
  pub split_key :
      (k : Bytes)
      → bytes_ltb k (get_tick_state_key t a min_tick) ≡ false
      → bytes_ltb (upto t a) k ≡ false
      → (r : Bytes) × (k ≡ key_prefix_tick_state ++ (t.bytes a ++ r))
  unfolding get_tick_state_key
  split_key k low high =
      between_prefix (key_prefix_tick_state ++ t.bytes a) (int32_to_ordered_bytes min_tick)
        (int32_to_ordered_bytes max_tick) k low high

  pub same_address :
      (b : t.Address) (n : ℤ) (r : Bytes)
      → key_prefix_tick_state ++ (t.bytes a ++ r) ≡ get_tick_state_key t b n
      → a ≡ b
  unfolding get_address
  same_address b n r e =
      sym (t.from_bytes-bytes a)
      ∙ ap t.from_bytes (sym (take-append 20 (t.bytes a) r (t.length-bytes a)))
      ∙ ap (get_address t) e
      ∙ get_address-get_tick_state_key t b n

module _ (t : AddressType) (a : t.Address) (c : Contents) (wf : IsWellFormed t c) where
  inside_of : (n : ℤ) → ltb_ℤ n min_tick ≡ false → ltb_ℤ max_tick n ≡ false → in_ticks n ≡ true
  inside_of n low high = rw (low, high) refl

  -- A well-formed entry between the bounds of the walk is one of the pool.
  PoolEntry-of :
      (k v : Bytes)
      → c k ≡ some v
      → bytes_ltb k (get_tick_state_key t a min_tick) ≡ false
      → bytes_ltb (upto t a) k ≡ false
      → PoolEntry t a k v
  PoolEntry-of k v found low high =
      let (r, split) = split_key t a k low high in
      let (z, is_key, val) =
        Encodes-some _ gob_encode _ v (wf.tick_wf (t.bytes a ++ r)) (ap c (sym split) ∙ found) in
      let (b, n, int, e) = is_key in
      let key_is : k ≡ get_tick_state_key t a n =
        split ∙ e ∙ ap (λ x. get_tick_state_key t x n) (sym (same_address t a b n r e)) in
      record {
        tick = n;
        liquidity = z;
        inside =
            inside_of n
              (sym (bytes_ltb-get_tick_state_key n min_tick int (omega arith) t a)
                ∙ ap (λ x. bytes_ltb x (get_tick_state_key t a min_tick)) (sym key_is)
                ∙ low)
              (sym (bytes_ltb-get_tick_state_key max_tick n (omega arith) int t a)
                ∙ ap (bytes_ltb (upto t a)) (sym key_is)
                ∙ high);
        key_eq = key_is;
        val_eq = val;
      }

  -- So is every such entry of a cursor that shows well-formed contents.
  pub InPool-of :
      (cur : Cursor)
      → Ascends cur
      → ((k v : Bytes)
          → cursor_find cur k ≡ some v
          → (c k ≡ some v) × (bytes_ltb k (get_tick_state_key t a min_tick) ≡ false))
      → InPool t a cur
  InPool-of (end e) asc h = asc
  InPool-of (entry k v rest) asc h =
      let here : cursor_find (entry k v rest) k ≡ some v = rw bytes_eqb_refl refl in
      (
        λ high. PoolEntry-of k v (h k v here).0 (h k v here).1 high,
        InPool-of rest (AscendsFrom-Ascends k rest asc)
            λ j w e. h j w (find-behind k v j w rest asc e),
      )
