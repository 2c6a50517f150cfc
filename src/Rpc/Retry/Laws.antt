-- ===== src/Rpc/Retry/Laws.antt =====
-- `withRpcRetry`: what a run says of the calls.
use circleup.Prelude.{
  ℕ, zero, suc, ◌+◌, max, ◌≤◌, ◌<◌, ◌≡◌, ◌⊎◌, inl, inr, refl, sym, Bool, true, false, String, ap,
  ◌∙◌, some, [], ◌∷◌, Option, none, ◌==◌, arith, Bool-cases, ==_iff, length,
}
use mathlib.Core.Path.{subst}
use circleup.Rpc.Errors.{RpcError, is_transient_rpc_error, sdk_is_transient_rpc_error, mentions}
use circleup.Rpc.Retry.{
  Answer, answered, failed, RetryRun, caught, after_answer, retry_from, with_rpc_retry, thrown,
  wrapped, sdk_with_rpc_retry,
}

abbrev pub FailsTransiently : {A : Type 0} → (Option RpcError → Bool) → Answer A → Type 0
FailsTransiently is_transient (answered a) = ⊥
FailsTransiently is_transient (failed err) = is_transient err ≡ true

-- A call after which no other is made: an answer, an error that is not transient, the last one.
abbrev pub EndsAt : {A : Type 0} → (Option RpcError → Bool) → ℕ → ℕ → Answer A → Type 0
EndsAt is_transient attempts n (answered a) = Unit
EndsAt is_transient attempts n (failed err) = (is_transient err ≡ false) ⊎ (n ≡ attempts)

module _ {A : Type 0} (fn : ℕ → Answer A) (floor_random : ℕ → ℕ → ℕ) (base_delay_ms : ℕ)
    (is_transient : Option RpcError → Bool) (attempts : ℕ) where
  -- The calls from `attempt` on: within the attempts, transient failures before the last call, whose
  -- answer is the run's, and one wait between two calls.
  abbrev pub IsRun : ℕ → RetryRun A → Type 0
  IsRun attempt run =
      (attempt ≤ run.tried)
      × (run.tried ≤ attempts)
      × ((n : ℕ) → attempt ≤ n → n < run.tried → FailsTransiently is_transient (fn n))
      × (run.outcome ≡ fn run.tried)
      × EndsAt is_transient attempts run.tried run.outcome
      × (attempt + length run.waits ≡ run.tried)

  after_answer-IsRun :
      (attempt : ℕ) (rest : RetryRun A) (ans : Answer A)
      → fn attempt ≡ ans
      → attempt ≤ attempts
      → (attempt < attempts → IsRun (attempt + 1) rest)
      → IsRun attempt
          (after_answer fn floor_random base_delay_ms is_transient attempts attempt rest ans)
  unfolding after_answer
  after_answer-IsRun attempt rest (answered a) e le next =
      (omega arith, le, λ n h k. absurd (omega (arith, h, k)), sym e, tt, omega arith)
  after_answer-IsRun attempt rest (failed err) e le next = elim (Bool-cases (is_transient err)) [
    | inr hard ↦
        rw hard
          (omega arith, le, λ n h k. absurd (omega (arith, h, k)), sym e, inl hard, omega arith)
    | inl soft ↦ elim (Bool-cases (attempt == attempts)) [
      | inl last ↦
          rw (soft, last)
            (
              omega arith,
              le,
              λ n h k. absurd (omega (arith, h, k)),
              sym e,
              inr (ground arith),
              omega arith,
            )
      | inr more ↦
          let (low, high, fails, same, ends, waits) = next (ground arith) in
          rw (soft, more)
            (
              omega arith,
              high,
              λ n h k. elim (Bool-cases (n == attempt)) [
                | inl here ↦
                    subst (λ m. FailsTransiently is_transient (fn m))
                      (sym ((==_iff n attempt).0 here))
                      (subst (FailsTransiently is_transient) (sym e) soft)
                | inr later ↦ fails n (ground arith) k
              ],
              same,
              ends,
              omega arith,
            )
    ]
  ]

  retry_from-IsRun :
      (left attempt : ℕ) (last_err : Option RpcError)
      → attempt + left ≡ attempts
      → IsRun attempt (
          retry_from fn floor_random base_delay_ms is_transient attempts
            (suc left)
            attempt
            last_err)
  unfolding retry_from
  retry_from-IsRun zero attempt last_err h =
      after_answer-IsRun attempt
        (retry_from fn floor_random base_delay_ms is_transient attempts zero (attempt + 1)
          (caught last_err (fn attempt)))
        (fn attempt) refl (omega arith) (λ lt. absurd (omega (arith, lt)))
  retry_from-IsRun (suc left) attempt last_err h =
      after_answer-IsRun attempt
        (retry_from fn floor_random base_delay_ms is_transient attempts (suc left) (attempt + 1)
          (caught last_err (fn attempt)))
        (fn attempt) refl (omega arith)
        (λ lt. retry_from-IsRun left (attempt + 1) (caught last_err (fn attempt)) (omega arith))

retry_all-IsRun :
    {A : Type 0} (fn : ℕ → Answer A) (floor_random : ℕ → ℕ → ℕ) (base_delay_ms : ℕ)
    (is_transient : Option RpcError → Bool) (attempts : ℕ)
    → 1 ≤ attempts
    → IsRun fn floor_random base_delay_ms is_transient attempts 1
        (retry_from fn floor_random base_delay_ms is_transient attempts attempts 1 none)
retry_all-IsRun fn floor_random base_delay_ms is_transient zero h = absurd (omega (arith, h))
retry_all-IsRun fn floor_random base_delay_ms is_transient (suc left) h =
    retry_from-IsRun fn floor_random base_delay_ms is_transient (suc left) left 1 none (omega arith)

-- A run as the caller sees it: an error of the last call is thrown as `rethrow` makes it.
abbrev pub IsRethrown :
    {A : Type 0}
    → (ℕ → Answer A)
    → (Option RpcError → Bool)
    → (ℕ → Option RpcError → Option RpcError)
    → ℕ
    → RetryRun A
    → Type 0
IsRethrown fn is_transient rethrow attempts run =
    (1 ≤ run.tried)
    × (run.tried ≤ attempts)
    × ((n : ℕ) → 1 ≤ n → n < run.tried → FailsTransiently is_transient (fn n))
    × (run.outcome ≡ thrown (rethrow run.tried) (fn run.tried))
    × EndsAt is_transient attempts run.tried (fn run.tried)
    × (1 + length run.waits ≡ run.tried)

-- A run of the indexer's retry with the answers `fn` makes between one and `max 1 max_attempts`
-- calls. All but the last call failed with a transient error. Where the last call answers, its
-- answer is the outcome; where it fails, its error is not transient or the attempts are used up, and
-- the outcome is a new error whose text names the call, the number of calls and that error. Between
-- two calls there is one wait.
pub with_rpc_retry_lem :
    {A : Type 0} (fn : ℕ → Answer A) (floor_random : ℕ → ℕ → ℕ) (base_delay_ms : ℕ) (label : String)
    (max_attempts : ℕ)
    → IsRethrown fn is_transient_rpc_error
        (wrapped label)
        (max 1 max_attempts)
        (with_rpc_retry fn floor_random base_delay_ms label max_attempts)
unfolding with_rpc_retry
with_rpc_retry_lem fn floor_random base_delay_ms label max_attempts =
    let attempts = max 1 max_attempts in
    let run =
      retry_from fn floor_random base_delay_ms is_transient_rpc_error attempts attempts 1 none in
    let (low, high, fails, same, ends, waits) =
      retry_all-IsRun fn floor_random base_delay_ms is_transient_rpc_error attempts (omega arith) in
    (
      low,
      high,
      fails,
      ap (thrown (wrapped label run.tried)) same,
      subst (λ a. EndsAt is_transient_rpc_error attempts run.tried a) same ends,
      waits,
    )

-- The two tests say the same of every error that the calls make.
abbrev Same : {A : Type 0} → (p q : Option RpcError → Bool) → Answer A → Type 0
Same p q (answered a) = Unit
Same p q (failed err) = p err ≡ q err

module _ {A : Type 0} (fn : ℕ → Answer A) (floor_random : ℕ → ℕ → ℕ) (base_delay_ms : ℕ)
    (p q : Option RpcError → Bool) (attempts : ℕ) where
  after_answer-Same :
      (attempt : ℕ) (rest : RetryRun A) (ans : Answer A)
      → Same p q ans
      → after_answer fn floor_random base_delay_ms p attempts attempt rest ans
        ≡ after_answer fn floor_random base_delay_ms q attempts attempt rest ans
  unfolding after_answer
  after_answer-Same attempt rest (answered a) h = refl
  after_answer-Same attempt rest (failed err) h = rw h refl

  retry_from-Same :
      ((n : ℕ) → Same p q (fn n))
      → (left attempt : ℕ) (last_err : Option RpcError)
      → retry_from fn floor_random base_delay_ms p attempts left attempt last_err
        ≡ retry_from fn floor_random base_delay_ms q attempts left attempt last_err
  unfolding retry_from
  retry_from-Same h zero attempt last_err = refl
  retry_from-Same h (suc left) attempt last_err =
      let again = caught last_err (fn attempt) in
      ap (λ rest. after_answer fn floor_random base_delay_ms p attempts attempt rest (fn attempt))
        (retry_from-Same h left (attempt + 1) again)
      ∙ after_answer-Same attempt
          (retry_from fn floor_random base_delay_ms q attempts left (attempt + 1) again)
          (fn attempt) (h attempt)

-- No error with the text of a `fetch` that failed in a browser.
abbrev pub IsNotFetch : {A : Type 0} → Answer A → Type 0
IsNotFetch (answered a) = Unit
IsNotFetch (failed none) = Unit
IsNotFetch (failed (some err)) =
    mentions ("failed to fetch" ∷ "fetch failed" ∷ []) err.message ≡ false

IsNotFetch-Same :
    {A : Type 0} (ans : Answer A)
    → IsNotFetch ans
    → Same sdk_is_transient_rpc_error is_transient_rpc_error ans
unfolding sdk_is_transient_rpc_error is_transient_rpc_error mentions
IsNotFetch-Same (answered a) h = tt
IsNotFetch-Same (failed none) h = refl
IsNotFetch-Same (failed (some err)) h = ground (arith, h)

-- The retry of the SDK and that of the indexer, which are two copies, do the same where no call fails
-- with the text of a failed `fetch`: as many calls, with the same waits between them, and the same
-- outcome but for the new error that the indexer makes of an error at the end.
pub sdk_with_rpc_retry_agrees :
    {A : Type 0} (fn : ℕ → Answer A) (floor_random : ℕ → ℕ → ℕ) (base_delay_ms : ℕ) (label : String)
    (max_attempts : ℕ)
    → ((n : ℕ) → IsNotFetch (fn n))
    → let sdk = sdk_with_rpc_retry fn floor_random base_delay_ms max_attempts in
      with_rpc_retry fn floor_random base_delay_ms label max_attempts
      ≡ record sdk { outcome = thrown (wrapped label sdk.tried) sdk.outcome }
unfolding with_rpc_retry sdk_with_rpc_retry
sdk_with_rpc_retry_agrees {A = A} fn floor_random base_delay_ms label max_attempts h =
    ap {A = RetryRun A}
      (λ run. record run { outcome = thrown (wrapped label run.tried) run.outcome })
      (sym (
        retry_from-Same fn floor_random base_delay_ms sdk_is_transient_rpc_error
          is_transient_rpc_error (max 1 max_attempts) (λ n. IsNotFetch-Same (fn n) (h n))
          (max 1 max_attempts) 1 none))
