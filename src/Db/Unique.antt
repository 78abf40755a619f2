-- ===== src/Db/Unique.antt =====
-- An ascending list of tick states is determined by what it says of each tick.
use uniswapv3_tick_state.Prelude.{
  ◌≡◌, refl, sym, ap, ◌∙◌, Bool, true, false, Option, none, some, List, [], ◌∷◌, ℤ, ltb_ℤ, eqb_ℤ,
  eqb_ℤ_refl, if◌then◌else◌, arith,
}
use uniswapv3_tick_state.Address.{AddressType, addr_eqb_refl}
use uniswapv3_tick_state.Types.{TickState}
use uniswapv3_tick_state.Db.Contract.{Ascend, AscendAbove, find_tick, View, with_tick, with_ticks}

pub AscendAbove-Ascend : (n : ℤ) (ts : List TickState) → AscendAbove n ts → Ascend ts
AscendAbove-Ascend n [] h = tt
AscendAbove-Ascend n (t ∷ ts) h = h.1

-- A tick that is not above the bound is not listed.
pub find_tick-low :
    (m n : ℤ) (ts : List TickState) → AscendAbove n ts → ltb_ℤ n m ≡ false → find_tick m ts ≡ none
find_tick-low m n [] h low = refl
find_tick-low m n (t ∷ ts) h low = ground (arith, find_tick-low m t.tick ts h.1)

find_own : (t : TickState) (ts : List TickState) → find_tick t.tick (t ∷ ts) ≡ some t.liquidity_net
find_own t ts = rw (eqb_ℤ_refl t.tick) refl

find_tail :
    (n : ℤ) (t : TickState) (ts : List TickState)
    → AscendAbove t.tick ts
    → find_tick n ts ≡ (if eqb_ℤ t.tick n then none else find_tick n (t ∷ ts))
find_tail n t ts h = ground (arith, find_tick-low n t.tick ts h)

pub Ascend-unique :
    (xs ys : List TickState)
    → Ascend xs
    → Ascend ys
    → ((n : ℤ) → find_tick n xs ≡ find_tick n ys)
    → xs ≡ ys
Ascend-unique [] [] hx hy same = refl
Ascend-unique [] (y ∷ ys) hx hy same = cc (same y.tick ∙ find_own y ys)
Ascend-unique (x ∷ xs) [] hx hy same = cc (sym (same x.tick) ∙ find_own x xs)
Ascend-unique (x ∷ xs) (y ∷ ys) hx hy same =
    let e : x.tick ≡ y.tick = heads in
    let tails : xs ≡ ys =
      Ascend-unique xs ys (AscendAbove-Ascend x.tick xs hx) (AscendAbove-Ascend y.tick ys hy) λ n.
        find_tail n x xs hx
        ∙ ap (λ f. if eqb_ℤ x.tick n then none else f) (same n)
        ∙ ap (λ k. if eqb_ℤ k n then none else find_tick n (y ∷ ys)) e
        ∙ sym (find_tail n y ys hy) in
    let found : some x.liquidity_net ≡ some y.liquidity_net =
      sym (find_own x xs) ∙ same x.tick ∙ ap (λ k. find_tick k (y ∷ ys)) e ∙ find_own y ys in
    let l : x.liquidity_net ≡ y.liquidity_net = cc in
    λ i. record { tick = e i; liquidity_net = l i } ∷ tails i
  where
    heads : x.tick ≡ y.tick
    heads = ground (
      arith,
      same x.tick,
      same y.tick,
      find_own x xs,
      find_own y ys,
      find_tick-low x.tick y.tick ys hy,
      find_tick-low y.tick x.tick xs hx,
    )

abbrev pub or_else : Option ℤ → Option ℤ → Option ℤ
or_else (some z) o = some z
or_else none o = o

module _ (t : AddressType) (a : t.Address) where
  tick-with_tick :
      (ts : TickState) (v : View t.Address) (n : ℤ)
      → (with_tick t a ts v).tick a n
        ≡ (if eqb_ℤ ts.tick n then some ts.liquidity_net else v.tick a n)
  tick-with_tick ts v n = rw (addr_eqb_refl t a) refl

  -- A list of ticks written to a view: the last one written for a tick counts, and in an ascending
  -- list there is one.
  pub tick-with_ticks :
      (ts : List TickState) (v : View t.Address) (n : ℤ)
      → Ascend ts
      → (with_ticks t a ts v).tick a n ≡ or_else (find_tick n ts) (v.tick a n)
  tick-with_ticks [] v n h = refl
  tick-with_ticks (ts ∷ rest) v n h =
      tick-with_ticks rest (with_tick t a ts v) n (AscendAbove-Ascend ts.tick rest h)
      ∙ ap (or_else (find_tick n rest)) (tick-with_tick ts v n)
      ∙ one_more (eqb_ℤ ts.tick n) ts.liquidity_net (find_tick n rest) (v.tick a n)
          (λ same. find_tick-low n ts.tick rest h (ground arith))
    where
      one_more :
          (q : Bool) (z : ℤ) (o d : Option ℤ)
          → (q ≡ true → o ≡ none)
          → or_else o (if q then some z else d) ≡ or_else (if q then some z else o) d
      one_more true z o d h = rw (h refl) refl
      one_more false z o d h = refl

  pub globals-with_ticks :
      (ts : List TickState) (v : View t.Address)
      → ((with_ticks t a ts v).height ≡ v.height)
        × ((with_ticks t a ts v).current ≡ v.current)
        × ((with_ticks t a ts v).spacing ≡ v.spacing)
  globals-with_ticks [] v = (refl, refl, refl)
  globals-with_ticks (ts ∷ rest) v = globals-with_ticks rest (with_tick t a ts v)
