-- ===== src/Rpc/Retry.antt =====
-- `withRpcRetry` of indexer/src/indexer.ts and sdk/src/rpcRetry.ts. The call is a parameter, by the
-- number of the attempt, and so is `Math.floor(Math.random() * ceiling)`. A run is its outcome, the
-- calls that were made and the waits between them. The loop recurs on the attempts that are left.
pub mod Laws
use circleup.Prelude.{
  ℕ, zero, suc, ◌+◌, ◌-◌, ◌*◌, ◌^◌, max, Bool, true, false, not, ◌||◌, Option, none, some, List, [],
  ◌∷◌, ◌==◌, if◌then◌else◌,
}
use Prim.Native.String
use Prim.Native.String.{String}
use circleup.Prelude.Text.{decimal}
use circleup.Rpc.Errors.{
  RpcError, no_code, describe_rpc_error, is_transient_rpc_error, sdk_is_transient_rpc_error,
}

pub data Answer (A : Type 0) : Type 0 where
  answered : A → Answer A
  failed : Option RpcError → Answer A

pub record RetryRun (A : Type 0) : Type 0 where
  pub outcome : Answer A
  pub tried : ℕ
  pub waits : List ℕ

-- `lastErr = err`
abbrev pub caught : {A : Type 0} → Option RpcError → Answer A → Option RpcError
caught last_err (answered a) = last_err
caught last_err (failed err) = err

-- What is thrown in the place of an error.
abbrev pub thrown : {A : Type 0} → (Option RpcError → Option RpcError) → Answer A → Answer A
thrown f (answered a) = answered a
thrown f (failed err) = failed (f err)

-- The error that the indexer throws at the end: its text names the call, the tries and the last error.
unfoldable pub wrapped : String → ℕ → Option RpcError → Option RpcError
unfolding describe_rpc_error decimal
wrapped label tried last_err = some (record {
  code = no_code;
  status = none;
  message = String.◌++◌ "[indexer] Soroban RPC " (
      String.◌++◌ label (
        String.◌++◌ " failed after " (
          String.◌++◌ (decimal tried)
            (String.◌++◌ " attempt(s): " (describe_rpc_error last_err)))));
  is_error = true;
})

module _ {A : Type 0} (fn : ℕ → Answer A) (floor_random : ℕ → ℕ → ℕ) (base_delay_ms : ℕ) where
  -- `base * 2 ** (attempt - 1)`
  abbrev pub ceiling : ℕ → ℕ
  ceiling attempt = base_delay_ms * 2 ^ (attempt - 1)

  module _ (is_transient : Option RpcError → Bool) (attempts : ℕ) where
    pub after_answer : ℕ → RetryRun A → Answer A → RetryRun A
    after_answer attempt rest (answered a) = record {
      outcome = answered a;
      tried = attempt;
      waits = [];
    }
    after_answer attempt rest (failed err) =
        if not (is_transient err) || attempt == attempts
        then record { outcome = failed err; tried = attempt; waits = [] }
        else record rest { waits = floor_random attempt (ceiling attempt) ∷ rest.waits }

    -- The round of `attempt`; without a round left the last error is thrown.
    pub retry_from : (left attempt : ℕ) → Option RpcError → RetryRun A
    unfolding after_answer
    retry_from zero attempt last_err = record {
      outcome = failed last_err;
      tried = attempt;
      waits = [];
    }
    retry_from (suc left) attempt last_err =
        after_answer attempt (retry_from left (attempt + 1) (caught last_err (fn attempt)))
          (fn attempt)

  -- The indexer's; it throws a new error.
  unfoldable pub with_rpc_retry : String → ℕ → RetryRun A
  unfolding retry_from wrapped
  with_rpc_retry label max_attempts =
      let run =
        retry_from is_transient_rpc_error (max 1 max_attempts) (max 1 max_attempts) 1 none in
      record run { outcome = thrown (wrapped label run.tried) run.outcome }

  -- The SDK's; it throws the error as it is.
  unfoldable pub sdk_with_rpc_retry : ℕ → RetryRun A
  unfolding retry_from
  sdk_with_rpc_retry max_attempts =
      retry_from sdk_is_transient_rpc_error (max 1 max_attempts) (max 1 max_attempts) 1 none
