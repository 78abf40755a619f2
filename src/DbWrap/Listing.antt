-- ===== src/DbWrap/Listing.antt =====
-- The tick states that the walk of `GetRange` reads are those of the pool, in ascending order.
use mathlib.Core.Path.{subst}
use uniswapv3_tick_state.Prelude.{
  ◌≡◌, refl, sym, ap, ◌∙◌, Bool, true, false, inl, inr, ◌&&◌, Option, none, some, ℤ, ltb_ℤ, eqb_ℤ,
  ◌<ℤ◌, if◌then◌else◌, Bool-cases, arith,
}
use uniswapv3_tick_state.Result.{ok, bind}
use uniswapv3_tick_state.Bytes.{Bytes, bytes_ltb, bytes_eqb}
use uniswapv3_tick_state.Bytes.Order.{bytes_ltb_le_trans, bytes_eqb_of_gtb, bytes_ltb_asymm}
use uniswapv3_tick_state.Gob.{gob_encode, gob_decode-gob_encode}
use uniswapv3_tick_state.Address.{AddressType, addr_eqb_refl}
use uniswapv3_tick_state.Engine.{Cursor, entry, end}
use uniswapv3_tick_state.Engine.Laws.{cursor_find, AscendsFrom, Ascends}
use uniswapv3_tick_state.Engine.Cursors.{find-AscendsFrom, AscendsFrom-Ascends}
use uniswapv3_tick_state.TickKey.{max_tick, get_tick_state_key}
use uniswapv3_tick_state.TickKey.Order.{bytes_ltb-get_tick_state_key, bytes_eqb-get_tick_state_key}
use uniswapv3_tick_state.Db.Contract.{in_ticks, AscendAbove, Ascend, find_tick}
use uniswapv3_tick_state.DbWrap.Contents.{ok_or, read_tick}
use uniswapv3_tick_state.DbWrap.Range.{
  in_ticks-IsInt32, InPool, upto, ticks_upto, tick_of_entry, liquidity_of_entry,
}

read_tick-gob_encode : (z : ℤ) → read_tick (some (gob_encode z)) ≡ some z
read_tick-gob_encode z = ap (λ r. ok_or none (bind r (λ y. ok (some y)))) (gob_decode-gob_encode z)

-- One entry in front: `i` is the test of the bounds, `e` that of ticks and `q` that of keys.
pick_if :
    (i e q : Bool) (z : ℤ) (v : Bytes) (f : Option ℤ) (o : Option Bytes)
    → v ≡ gob_encode z
    → (i ≡ true → q ≡ e)
    → (e ≡ true → i ≡ true)
    → f ≡ (if i then read_tick o else none)
    → (if e then some z else f) ≡ (if i then read_tick (if q then some v else o) else none)
pick_if true true q z v f o val keys h ih = rw (keys refl, val) (sym (read_tick-gob_encode z))
pick_if true false q z v f o val keys h ih = rw (keys refl) ih
pick_if false true q z v f o val keys h ih = cc (h refl)
pick_if false false q z v f o val keys h ih = ih

same_inside : (n m : ℤ) → in_ticks n ≡ true → eqb_ℤ n m ≡ true → in_ticks m ≡ true
same_inside n m h e = ground arith

lt_of_ltb : (n m : ℤ) → ltb_ℤ n m ≡ true → n <ℤ m
lt_of_ltb n m h = ground arith

bound_inside : (m : ℤ) → in_ticks m ≡ true → ltb_ℤ max_tick m ≡ false
bound_inside m h = ground arith

module _ (t : AddressType) (a : t.Address) where
  key_eqb :
      (n m : ℤ)
      → in_ticks n ≡ true
      → in_ticks m ≡ true
      → bytes_eqb (get_tick_state_key t a n) (get_tick_state_key t a m) ≡ eqb_ℤ n m
  key_eqb n m hn hm =
      bytes_eqb-get_tick_state_key n m (in_ticks-IsInt32 n hn) (in_ticks-IsInt32 m hm) t a a
      ∙ ap (λ b. b && eqb_ℤ n m) (addr_eqb_refl t a)

  key_ltb :
      (n m : ℤ)
      → in_ticks n ≡ true
      → in_ticks m ≡ true
      → bytes_ltb (get_tick_state_key t a n) (get_tick_state_key t a m) ≡ ltb_ℤ n m
  key_ltb n m hn hm =
      bytes_ltb-get_tick_state_key n m (in_ticks-IsInt32 n hn) (in_ticks-IsInt32 m hm) t a

  -- No tick of the pool lies beyond an entry that is above the bound.
  none_above :
      (m : ℤ) (k v : Bytes) (rest : Cursor)
      → AscendsFrom k rest
      → bytes_ltb (upto t a) k ≡ true
      → in_ticks m ≡ true
      → cursor_find (entry k v rest) (get_tick_state_key t a m) ≡ none
  none_above m k v rest asc above hm =
      let j = get_tick_state_key t a m in
      let below : bytes_ltb j k ≡ true =
        bytes_ltb_le_trans j (upto t a) k (key_ltb max_tick m (ground arith) hm ∙ bound_inside m hm)
          above in
      rw (bytes_eqb_of_gtb k j below) (find-AscendsFrom k j rest asc (bytes_ltb_asymm j k below))

  -- The walk reads each tick of the pool between the bounds, and nothing else.
  pub find_tick-ticks_upto :
      (m : ℤ) (c : Cursor)
      → Ascends c
      → InPool t a c
      → find_tick m (ticks_upto t a c)
        ≡ (if in_ticks m then read_tick (cursor_find c (get_tick_state_key t a m)) else none)
  unfolding ticks_upto
  find_tick-ticks_upto m (end e) asc h = elim (Bool-cases (in_ticks m)) [
    | inl i ↦ rw i refl
    | inr i ↦ rw i refl
  ]
  find_tick-ticks_upto m (entry k v rest) asc h = elim (Bool-cases (bytes_ltb (upto t a) k)) [
    | inl above ↦ elim (Bool-cases (in_ticks m)) [
      | inl i ↦ rw (above, i, none_above m k v rest asc above i) refl
      | inr i ↦ rw (above, i) refl
    ]
    | inr inside ↦
        let p = h.0 inside in
        rw (inside, tick_of_entry t a k v p, liquidity_of_entry t a k v p)
          (pick_if (in_ticks m) (eqb_ℤ p.tick m) _ p.liquidity v _ _ p.val_eq
            (λ i.
              ap (λ x. bytes_eqb x (get_tick_state_key t a m)) p.key_eq
              ∙ key_eqb p.tick m p.inside i)
            (same_inside p.tick m p.inside)
            (find_tick-ticks_upto m rest (AscendsFrom-Ascends k rest asc) h.1))
  ]

  ticks_upto-AscendAbove :
      (n : ℤ) (c : Cursor)
      → in_ticks n ≡ true
      → AscendsFrom (get_tick_state_key t a n) c
      → InPool t a c
      → AscendAbove n (ticks_upto t a c)
  unfolding ticks_upto
  ticks_upto-AscendAbove n (end e) i asc h = tt
  ticks_upto-AscendAbove n (entry k v rest) i asc h = elim (Bool-cases (bytes_ltb (upto t a) k)) [
    | inl above ↦ rw above tt
    | inr inside ↦
        let p = h.0 inside in
        rw (inside, tick_of_entry t a k v p)
          (
            lt_of_ltb n p.tick
                (sym (key_ltb n p.tick i p.inside) ∙ ap (bytes_ltb _) (sym p.key_eq) ∙ asc.0),
            ticks_upto-AscendAbove p.tick rest p.inside
                (subst (λ x. AscendsFrom x rest) p.key_eq asc.1) h.1,
          )
  ]

  pub ticks_upto-Ascend : (c : Cursor) → Ascends c → InPool t a c → Ascend (ticks_upto t a c)
  unfolding ticks_upto
  ticks_upto-Ascend (end e) asc h = tt
  ticks_upto-Ascend (entry k v rest) asc h = elim (Bool-cases (bytes_ltb (upto t a) k)) [
    | inl above ↦ rw above tt
    | inr inside ↦
        let p = h.0 inside in
        rw (inside, tick_of_entry t a k v p)
          (ticks_upto-AscendAbove p.tick rest p.inside
            (subst (λ x. AscendsFrom x rest) p.key_eq asc) h.1)
  ]
