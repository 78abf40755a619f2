-- ===== src/ContractCaller.antt =====
-- contract_caller.go: the call of the lens contract, asked again until the node answers, fails for
-- good, or the time is over.
pub mod Reverted
use uniswapv3_tick_state.Prelude.{
  ℕ, Bool, true, false, ◌&&◌, ◌||◌, not, List, [], ◌∷◌, ◌==◌, if◌then◌else◌,
}
use uniswapv3_tick_state.Result.{Error, foreign, Result, ok, err, panic}
use uniswapv3_tick_state.Bytes.{Bytes, codes}
use uniswapv3_tick_state.PoolGetter.{Lens, LensOutput}

unfoldable pub has_prefix : Bytes → Bytes → Bool
has_prefix s [] = true
has_prefix [] (b ∷ bs) = false
has_prefix (a ∷ s) (b ∷ bs) = a == b && has_prefix s bs

-- strings.Contains
unfoldable pub contains : Bytes → Bytes → Bool
unfolding has_prefix
contains [] sub = has_prefix [] sub
contains (a ∷ s) sub = has_prefix (a ∷ s) sub || contains s sub

-- of the message of an error
unfoldable pub is_retryable_err : Bytes → Bool
unfolding contains
is_retryable_err message = not (
    contains message (codes "execution reverted")
    || (contains message (codes "out of gas")
        || contains message (codes "abi: cannot marshal in to go slice")))

-- What one CallContract of the node gives: bytes, or an error with its message.
pub data Answer : Type 0 where
  answered : Bytes → Answer
  failed : Bytes → Answer

-- the error of a call that failed or timed out
abbrev pub call_failed : Error
call_failed = foreign 0

-- `callContract`: an error that is not worth a retry is no error, and gives no bytes.
unfoldable pub call_contract_once : Answer → Result Bytes
unfolding is_retryable_err
call_contract_once (answered b) = ok b
call_contract_once (failed message) = if is_retryable_err message then err call_failed else ok []

abbrev pub or_again : Result Bytes → Result Bytes → Result Bytes
or_again (ok b) again = ok b
or_again (err e) again = again
or_again panic again = again

-- `CallContract`: the attempts that the node answers before the time is over. An error makes the
-- next attempt.
unfoldable pub call_contract : List Answer → Result Bytes
unfolding call_contract_once
call_contract [] = err call_failed
call_contract (a ∷ attempts) = or_again (call_contract_once a) (call_contract attempts)

-- The node, with the ABI library: the attempts to answer a request.
pub record Node (Address : Type 0) : Type 0 where
  pub pack : Address → Result Bytes
  pub attempts : Bytes → List Answer
  pub unpack : Bytes → Result LensOutput

abbrev pub lens_of : {A : Type 0} → Node A → Lens A
lens_of node = record {
  pack = node.pack;
  call_contract = λ request. call_contract (node.attempts request);
  unpack = node.unpack;
}
