-- ===== src/Parser/Logs.antt =====
-- `ParseLog` to `ParseBlock` against the events that the receipts log.
use mathlib.Core.Path.{subst}
use uniswapv3_tick_state.Prelude.{
  ◌⊎◌, ℕ, suc, ◌≡◌, refl, sym, false, inl, inr, List, [], ◌∷◌, ◌==◌, ==→eq, length, if◌then◌else◌,
  Bool-cases, arith,
}
use uniswapv3_tick_state.Result.{Error, Result, ok, err, panic}
use uniswapv3_tick_state.Bytes.{Bytes}
use uniswapv3_tick_state.Parser
use uniswapv3_tick_state.Parser.{
  Hash, Log, Receipt, BlockReceipt, AbiValue, other, big_int, Abi, swap_topic0, mint_topic0,
  burn_topic0, parse_log, parse_logs, parse_receipts, parse_block, appended,
}
use uniswapv3_tick_state.Parser.Spec.{Answers, AbiLaws, logged, listed, events_of_logs, events_of}

-- What a library that keeps its word answers.
answer-cases :
    (P : List AbiValue → Type 0) (r : Result (List AbiValue))
    → Answers P r
    → ((vs : List AbiValue) × (r ≡ ok vs) × P vs) ⊎ ((e : Error) × (r ≡ err e))
answer-cases P (ok vs) h = inl (vs, refl, h)
answer-cases P (err e) h = inr (e, refl)
answer-cases P panic h = absurd h

not_4 : (n : ℕ) → (suc (suc (suc (suc (suc n)))) == 4) ≡ false
not_4 n = ground arith

not_0 : (n : ℕ) → (suc n == 0) ≡ false
not_0 n = ground arith

not_3 : (n : ℕ) → (suc (suc (suc (suc n))) == 3) ≡ false
not_3 n = ground arith

module _ {Address : Type 0} (abi : Abi) (laws : AbiLaws abi) where
  abbrev log_of : Address → List Hash → Bytes → Log Address
  log_of a ts b = record { address = a; topics = ts; log_data = b }

  -- What the loop appends for a log.
  abbrev Appends : Address → List Hash → Bytes → Type 0
  Appends a ts b = appended (parse_log abi (log_of a ts b)) ≡ ok (listed (logged abi a ts b))

  mint_log : (a : Address) (ts : List Hash) (b : Bytes) → Appends a (mint_topic0 ∷ ts) b
  unfolding parse_log Parser.parse_mint Parser.parse_input Parser.index Parser.find_parser
      Parser.parse appended Parser.as_big_int
  mint_log a [] b = refl
  mint_log a (p ∷ []) b = refl
  mint_log a (p ∷ q ∷ []) b = refl
  mint_log a (p ∷ q ∷ r ∷ []) b = elim (answer-cases _ (abi.unpack_mint b) (laws.mint_values b)) [
    | inl (vs, e, (x, y, z, shape)) ↦ rw (e, shape) refl
    | inr (x, e) ↦ rw e refl
  ]
  mint_log a (p ∷ q ∷ r ∷ s ∷ ts) b = rw (not_4 (length ts)) refl

  burn_log : (a : Address) (ts : List Hash) (b : Bytes) → Appends a (burn_topic0 ∷ ts) b
  unfolding parse_log Parser.parse_burn Parser.parse_input Parser.index Parser.find_parser
      Parser.parse appended Parser.as_big_int
  burn_log a [] b = refl
  burn_log a (p ∷ []) b = refl
  burn_log a (p ∷ q ∷ []) b = refl
  burn_log a (p ∷ q ∷ r ∷ []) b = elim (answer-cases _ (abi.unpack_burn b) (laws.burn_values b)) [
    | inl (vs, e, (x, y, z, shape)) ↦ rw (e, shape) refl
    | inr (x, e) ↦ rw e refl
  ]
  burn_log a (p ∷ q ∷ r ∷ s ∷ ts) b = rw (not_4 (length ts)) refl

  swap_log : (a : Address) (ts : List Hash) (b : Bytes) → Appends a (swap_topic0 ∷ ts) b
  unfolding parse_log Parser.parse_swap Parser.parse_input Parser.index Parser.find_parser
      Parser.parse appended Parser.as_big_int
  swap_log a [] b = refl
  swap_log a (p ∷ []) b = refl
  swap_log a (p ∷ q ∷ []) b = elim (answer-cases _ (abi.unpack_swap b) (laws.swap_values b)) [
    | inl (vs, e, (x1, x2, x3, x4, x5, x6, x7, shape)) ↦ rw (e, shape) refl
    | inr (x, e) ↦ rw e refl
  ]
  swap_log a (p ∷ q ∷ r ∷ []) b = refl
  swap_log a (p ∷ q ∷ r ∷ s ∷ ts) b = rw (not_3 (suc (length ts))) refl

  -- A log of another topic has no events.
  other_log :
      (a : Address) (t : Hash) (ts : List Hash) (b : Bytes)
      → (t == mint_topic0) ≡ false
      → (t == burn_topic0) ≡ false
      → (t == swap_topic0) ≡ false
      → Appends a (t ∷ ts) b
  unfolding parse_log Parser.index appended
  other_log a t [] b m u w = rw (m, u, w) refl
  other_log a t (p ∷ []) b m u w = rw (m, u, w) refl
  other_log a t (p ∷ q ∷ []) b m u w = rw (m, u, w) refl
  other_log a t (p ∷ q ∷ r ∷ []) b m u w = rw (m, u, w) refl
  other_log a t (p ∷ q ∷ r ∷ s ∷ ts) b m u w = rw (m, u, w) refl

  parse_log-Appends : (a : Address) (t : Hash) (ts : List Hash) (b : Bytes) → Appends a (t ∷ ts) b
  parse_log-Appends a t ts b = elim (Bool-cases (t == mint_topic0)) [
    | inl m ↦ subst (λ x. Appends a (x ∷ ts) b) (sym (==→eq t mint_topic0 m)) (mint_log a ts b)
    | inr m ↦ elim (Bool-cases (t == burn_topic0)) [
      | inl u ↦ subst (λ x. Appends a (x ∷ ts) b) (sym (==→eq t burn_topic0 u)) (burn_log a ts b)
      | inr u ↦ elim (Bool-cases (t == swap_topic0)) [
        | inl w ↦ subst (λ x. Appends a (x ∷ ts) b) (sym (==→eq t swap_topic0 w)) (swap_log a ts b)
        | inr w ↦ other_log a t ts b m u w
      ]
    ]
  ]

  -- The loop skips a log without topics.
  events_of_log :
      (a : Address) (ts : List Hash) (b : Bytes)
      → (if length ts == 0 then ok [] else appended (parse_log abi (log_of a ts b)))
        ≡ ok (listed (logged abi a ts b))
  events_of_log a [] b = refl
  events_of_log a (t ∷ ts) b = rw (not_0 (length ts)) (parse_log-Appends a t ts b)

  parse_logs_lem : (logs : List (Log Address)) → parse_logs abi logs ≡ ok (events_of_logs abi logs)
  unfolding parse_logs
  parse_logs_lem [] = refl
  parse_logs_lem (log ∷ logs) =
      rw (events_of_log log.address log.topics log.log_data, parse_logs_lem logs) refl

  parse_receipts_lem :
      (receipts : List (Receipt Address))
      → parse_receipts abi receipts ≡ ok (events_of abi receipts)
  unfolding parse_receipts Parser.parse_receipt
  parse_receipts_lem [] = refl
  parse_receipts_lem (receipt ∷ receipts) = elim (Bool-cases (receipt.status == 1)) [
    | inl good ↦ rw (good, parse_logs_lem receipt.logs, parse_receipts_lem receipts) refl
    | inr failed ↦ rw (failed, parse_receipts_lem receipts) refl
  ]

  -- Where Unpack answers as the ABI says, ParseBlock never fails: it gives, in order, the mints,
  -- burns and swaps that the successful receipts log, told by the number and first of their topics,
  -- with the bounds, amount and tick at their places, and skips every other log.
  pub parse_block_lem :
      (h : ℕ) (receipts : List (Receipt Address))
      → parse_block abi (record { height = h; receipts = receipts })
        ≡ ok (record { height = h; events = events_of abi receipts })
  unfolding parse_block
  parse_block_lem h receipts = rw (parse_receipts_lem receipts) refl
