-- ===== src/TickKey/Order.antt =====
-- Within a pool the order of keys is the order of ticks; keys of different pools, ticks and kinds
-- are different.
use uniswapv3_tick_state.Prelude.{
  ◌+◌, ◌%◌, ◌≡◌, sym, ap, ◌∙◌, inl, inr, ◌&&◌, ℤ, pos, negsuc, ltb_ℤ, eqb_ℤ, eqb_ℤ→eq, IsInt32,
  u32_mod, to_uint32, ltb, Bool-cases, arith,
}
use uniswapv3_tick_state.Bytes.{bytes_ltb, bytes_eqb}
use uniswapv3_tick_state.Bytes.Codec.{bytes_ltb-put_uint32}
use uniswapv3_tick_state.Bytes.Order.{
  bytes_ltb-append, bytes_eqb-append, bytes_eqb-append_both, bytes_eqb→eq, bytes_eqb_refl,
}
use uniswapv3_tick_state.Address.{AddressType, addr_eqb}
use uniswapv3_tick_state.TickKey.{
  key_prefix_tick_state, int32_to_ordered_bytes, ordered_bytes_to_int32, get_tick_state_key,
}
use uniswapv3_tick_state.TickKey.RoundTrip.{ordered_bytes_to_int32_lem}

-- The offset of half the modulus makes the signed order the unsigned one.
ltb-shift :
    (n m : ℤ)
    → IsInt32 n
    → IsInt32 m
    → ltb ((to_uint32 n + 0x80000000) % u32_mod) ((to_uint32 m + 0x80000000) % u32_mod) ≡ ltb_ℤ n m
unfolding to_uint32
ltb-shift (pos n) (pos m) h k = ground arith
ltb-shift (pos n) (negsuc m) h k = ground arith
ltb-shift (negsuc n) (pos m) h k = ground arith
ltb-shift (negsuc n) (negsuc m) h k = ground arith

module _ (n m : ℤ) (hn : IsInt32 n) (hm : IsInt32 m) where
  -- The codes of two ticks compare as the ticks do.
  pub bytes_ltb-int32_to_ordered_bytes :
      bytes_ltb (int32_to_ordered_bytes n) (int32_to_ordered_bytes m) ≡ ltb_ℤ n m
  unfolding int32_to_ordered_bytes
  bytes_ltb-int32_to_ordered_bytes =
      bytes_ltb-put_uint32 _ _ (omega arith) (omega arith) ∙ ltb-shift n m hn hm

  int32_to_ordered_bytes_injective : int32_to_ordered_bytes n ≡ int32_to_ordered_bytes m → n ≡ m
  int32_to_ordered_bytes_injective e = cc (
    ordered_bytes_to_int32_lem n hn,
    ordered_bytes_to_int32_lem m hm,
    ap ordered_bytes_to_int32 e,
  )

  pub bytes_eqb-int32_to_ordered_bytes :
      bytes_eqb (int32_to_ordered_bytes n) (int32_to_ordered_bytes m) ≡ eqb_ℤ n m
  bytes_eqb-int32_to_ordered_bytes = elim (Bool-cases (eqb_ℤ n m)) [
    | inl same ↦ rw same (rw (eqb_ℤ→eq n m same) (bytes_eqb_refl (int32_to_ordered_bytes m)))
    | inr other ↦
        elim (Bool-cases (bytes_eqb (int32_to_ordered_bytes n) (int32_to_ordered_bytes m))) [
          | inl same ↦
              let e : n ≡ m = int32_to_ordered_bytes_injective (bytes_eqb→eq _ _ same) in
              ground (arith, e)
          | inr differ ↦ differ ∙ sym other
        ]
  ]

  module _ (t : AddressType) where
    open t use {Address, bytes, length-bytes}

    -- The keys of one address compare, byte by byte, as their int32 ticks do.
    pub bytes_ltb-get_tick_state_key :
        (a : Address) → bytes_ltb (get_tick_state_key t a n) (get_tick_state_key t a m) ≡ ltb_ℤ n m
    unfolding get_tick_state_key
    bytes_ltb-get_tick_state_key a =
        bytes_ltb-append key_prefix_tick_state _ _
        ∙ bytes_ltb-append (bytes a) _ _
        ∙ bytes_ltb-int32_to_ordered_bytes

    -- The keys of two addresses and two int32 ticks are equal just where both are.
    pub bytes_eqb-get_tick_state_key :
        (a b : Address)
        → bytes_eqb (get_tick_state_key t a n) (get_tick_state_key t b m)
          ≡ (addr_eqb t a b && eqb_ℤ n m)
    unfolding get_tick_state_key
    bytes_eqb-get_tick_state_key a b =
        bytes_eqb-append key_prefix_tick_state _ _
        ∙ bytes_eqb-append_both (bytes a) (bytes b) _ _ (length-bytes a ∙ sym (length-bytes b))
        ∙ ap (λ x. addr_eqb t a b && x) bytes_eqb-int32_to_ordered_bytes
