-- ===== src/DbWrap/Range.antt =====
-- The walk of `GetRange` over the keys of one pool: the entries that it collects.
use uniswapv3_tick_state.Prelude.{
  ◌≡◌, refl, ap, ap, ◌∙◌, true, false, inl, inr, none, List, [], ◌∷◌, ℤ, pos, IsInt32,
  if◌then◌else◌, Bool-cases, All, arith,
}
use uniswapv3_tick_state.Result.{ok}
use uniswapv3_tick_state.Bytes.{Bytes, bytes_ltb}
use uniswapv3_tick_state.Gob.{gob_encode, gob_decode, gob_decode-gob_encode}
use uniswapv3_tick_state.Address.{AddressType}
use uniswapv3_tick_state.Engine.{Cursor, entry, end}
use uniswapv3_tick_state.RocksDb.{BytesEntry, collect_range}
use uniswapv3_tick_state.TickKey.{max_tick, get_tick, get_tick_state_key}
use uniswapv3_tick_state.TickKey.RoundTrip.{get_tick-get_tick_state_key}
use uniswapv3_tick_state.Types.{TickState}
use uniswapv3_tick_state.Db.Contract.{in_ticks, at_tick}
use uniswapv3_tick_state.DbWrap.Contents.{ok_or}

pub in_ticks-IsInt32 : (n : ℤ) → in_ticks n ≡ true → IsInt32 n
in_ticks-IsInt32 n h = ground arith

module _ (t : AddressType) where
  open t use {Address}

  -- An entry for a tick of the pool.
  pub record PoolEntry (a : Address) (k v : Bytes) : Type 0 where
    pub tick : ℤ
    pub liquidity : ℤ
    pub inside : in_ticks tick ≡ true
    pub key_eq : k ≡ get_tick_state_key t a tick
    pub val_eq : v ≡ gob_encode liquidity

  module _ (a : Address) where
    abbrev pub upto : Bytes
    upto = get_tick_state_key t a max_tick

    -- Up to the bound of the walk all entries are the pool's.
    abbrev pub InPool : Cursor → Type 0
    InPool (end e) = e ≡ none
    InPool (entry k v rest) = (bytes_ltb upto k ≡ false → PoolEntry a k v) × InPool rest

    -- The tick states that the walk reads.
    unfoldable pub ticks_upto : Cursor → List TickState
    ticks_upto (end e) = []
    ticks_upto (entry k v rest) =
        let more = ticks_upto rest in
        if bytes_ltb upto k
        then []
        else at_tick (ok_or (pos 0) (get_tick k)) (ok_or (pos 0) (gob_decode v)) ∷ more

    unfoldable pub entries_of : List TickState → List BytesEntry
    entries_of [] = []
    entries_of (ts ∷ l) =
        record { key = get_tick_state_key t a ts.tick; val = gob_encode ts.liquidity_net }
        ∷ entries_of l

    module _ (k v : Bytes) (p : PoolEntry a k v) where
      pub tick_of_entry : ok_or (pos 0) (get_tick k) ≡ p.tick
      tick_of_entry =
          ap (λ x. ok_or (pos 0) (get_tick x)) p.key_eq
          ∙ ap (ok_or (pos 0))
              (get_tick-get_tick_state_key t a p.tick (in_ticks-IsInt32 p.tick p.inside))

      pub liquidity_of_entry : ok_or (pos 0) (gob_decode v) ≡ p.liquidity
      liquidity_of_entry =
          ap (λ x. ok_or (pos 0) (gob_decode x)) p.val_eq
          ∙ ap (ok_or (pos 0)) (gob_decode-gob_encode p.liquidity)

    -- The loop collects the entries of these tick states, and ends without an error.
    pub collect_range-InPool :
        (c : Cursor) → InPool c → collect_range upto c ≡ ok (entries_of (ticks_upto c))
    unfolding collect_range ticks_upto entries_of
    collect_range-InPool (end e) h = rw h
    collect_range-InPool (entry k v rest) h = elim (Bool-cases (bytes_ltb upto k)) [
      | inl above ↦ rw above
      | inr inside ↦
          let p = h.0 inside in
          rw (inside, collect_range-InPool rest h.1, tick_of_entry k v p, liquidity_of_entry k v p)
            (rw (← p.key_eq, ← p.val_eq) refl)
    ]

    pub ticks_upto-IsInt32 : (c : Cursor) → InPool c → All (λ ts. IsInt32 ts.tick) (ticks_upto c)
    unfolding ticks_upto
    ticks_upto-IsInt32 (end e) h = tt
    ticks_upto-IsInt32 (entry k v rest) h = elim (Bool-cases (bytes_ltb upto k)) [
      | inl above ↦ rw above tt
      | inr inside ↦
          let p = h.0 inside in
          rw (inside, tick_of_entry k v p)
            (in_ticks-IsInt32 p.tick p.inside, ticks_upto-IsInt32 rest h.1)
    ]
