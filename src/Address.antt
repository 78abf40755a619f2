-- ===== src/Address.antt =====
-- `common.Address` of go-ethereum: an array of 20 bytes. The type is the library's, so it is a
-- parameter of the model, with what the program relies on.
use uniswapv3_tick_state.Prelude.{◌≡◌, sym, ◌∙◌, ap, Bool, true, length}
use uniswapv3_tick_state.Bytes.{Bytes, bytes_eqb}
use uniswapv3_tick_state.Bytes.Order.{bytes_eqb→eq, bytes_eqb_refl}

-- `bytes a` is addr[:], and `from_bytes` is common.BytesToAddress.
pub record AddressType : Type 1 where
  pub Address : Type 0
  pub bytes : Address → Bytes
  pub from_bytes : Bytes → Address
  pub length-bytes : (a : Address) → length (bytes a) ≡ 20
  pub from_bytes-bytes : (a : Address) → from_bytes (bytes a) ≡ a

module _ (t : AddressType) where
  open t use {Address, bytes, from_bytes, length-bytes, from_bytes-bytes}

  -- Go compares arrays byte by byte.
  abbrev pub addr_eqb : Address → Address → Bool
  addr_eqb a b = bytes_eqb (bytes a) (bytes b)

  pub addr_eqb_refl : (a : Address) → addr_eqb a a ≡ true
  addr_eqb_refl a = bytes_eqb_refl (bytes a)

  pub addr_eqb→eq : (a b : Address) → addr_eqb a b ≡ true → a ≡ b
  addr_eqb→eq a b h =
      sym (from_bytes-bytes a)
      ∙ ap from_bytes (bytes_eqb→eq (bytes a) (bytes b) h)
      ∙ from_bytes-bytes b
