-- ===== src/Failures.antt =====
-- indexer/src/eventFailures.ts: the class of a handler's error, and the durable evidence of an event
-- that was skipped. An error is an `Error` object with its optional `code`; times are kept as
-- whether they are set; the redacted message of the evidence is not modelled.
pub mod Laws
mod Tests
use circleup.Prelude.{
  ℕ, suc, ◌+◌, String, Bool, true, false, not, ◌&&◌, ◌||◌, Option, none, some, List, [], ◌∷◌, map,
  any, leb, ◌==◌, if◌then◌else◌, str_eq, or_else,
}
use circleup.Prelude.Text.{codes, lower_codes, includes_text, join, decimal}

pub data HandlerErrorClass : Type 0 where
  transient permanent : HandlerErrorClass

pub record HandlerError : Type 0 where
  pub code : Option String
  pub name : String
  pub message : String

-- `[0-9A-Z]`
is_state_char : ℕ → Bool
is_state_char c = (leb b'0' c && leb c b'9') || (leb b'A' c && leb c b'Z')

is_pair : ℕ → ℕ → ℕ → ℕ → Bool
is_pair a b x y = (a == x) && (b == y)

-- TRANSIENT_SQLSTATE_RE, on code points: (08|40|53)..., 57014, 57P.. and 55P03.
sqlstate_test : List ℕ → Bool
unfolding is_state_char is_pair
sqlstate_test (a ∷ b ∷ c ∷ d ∷ e ∷ []) =
    ((is_pair a b b'0' b'8' || is_pair a b b'4' b'0' || is_pair a b b'5' b'3')
      && is_state_char c
      && is_state_char d
      && is_state_char e)
    || (is_pair a b b'5' b'7' && c == b'0' && is_pair d e b'1' b'4')
    || (is_pair a b b'5' b'7' && c == b'P' && is_state_char d && is_state_char e)
    || (is_pair a b b'5' b'5' && c == b'P' && is_pair d e b'0' b'3')
sqlstate_test _ = false

transient_errno : String → Bool
transient_errno code =
    any (λ e. str_eq e code) ("ECONNRESET" ∷ "ECONNREFUSED" ∷ "ETIMEDOUT" ∷ "EPIPE" ∷ [])

transient_code : Option String → Bool
unfolding sqlstate_test transient_errno
transient_code none = false
transient_code (some code) = sqlstate_test (codes code) || transient_errno code

-- The case-insensitive pattern on the message.
transient_message : String → Bool
unfolding includes_text
transient_message message =
    any (λ part. includes_text (codes part) (lower_codes message))
      ("connection terminated" ∷ "connection is closed"
        ∷ "client has encountered a connection error" ∷ [])

unfoldable pub classify_handler_error : HandlerError → HandlerErrorClass
unfolding transient_code transient_message
classify_handler_error err =
    if transient_code err.code
    then transient
    else if transient_message err.message
    then transient
    else if str_eq err.name "PoolSaturationError"
    then transient
    else permanent

-- What identifies an event: the RPC event id, or a composite of other data.
unfoldable pub event_failure_id :
    Option String → ℕ → Option String → Option String → String → String
unfolding join decimal
event_failure_id id ledger tx_hash contract_id event_type =
    let composite =
      join ":" (decimal ledger ∷ or_else tx_hash "" ∷ or_else contract_id "" ∷ event_type ∷ []) in
    elim id [ none ↦ composite | some text ↦ if str_eq text "" then composite else text ]

pub record EventFailureEvidence : Type 0 where
  pub event_id : String
  pub ledger : ℕ
  pub tx_hash : Option String
  pub contract_id : Option String
  pub event_type : String
  pub error_class : HandlerErrorClass
  pub error_name : String

-- A row of event_failures.
pub record FailureRow : Type 0 where
  pub evidence : EventFailureEvidence
  pub attempts : ℕ
  pub resolved : Bool
  pub acknowledged : Bool

-- ON CONFLICT (event_id) DO UPDATE: a repeated failure counts one more attempt, takes the new
-- error, and is unresolved again; the other columns of the row stay.
abbrev failed_again : EventFailureEvidence → FailureRow → FailureRow
failed_again f row =
    let old = row.evidence in
    record row {
      evidence = record old { error_class = f.error_class; error_name = f.error_name };
      attempts = row.attempts + 1;
      resolved = false;
    }

pub upsert_failure : EventFailureEvidence → List FailureRow → List FailureRow
upsert_failure f [] =
    record { evidence = f; attempts = 1; resolved = false; acknowledged = false } ∷ []
upsert_failure f (row ∷ rows) =
    if str_eq row.evidence.event_id f.event_id
    then failed_again f row ∷ rows
    else row ∷ upsert_failure f rows

pub upsert_failures : List EventFailureEvidence → List FailureRow → List FailureRow
upsert_failures [] rows = rows
upsert_failures (f ∷ fs) rows = upsert_failures fs (upsert_failure f rows)

-- UPDATE event_failures SET resolved_at = NOW() WHERE event_id = ANY(ids) AND resolved_at IS NULL
pub resolve_failures : List String → List FailureRow → List FailureRow
resolve_failures ids [] = []
resolve_failures ids (row ∷ rows) =
    (if any (λ id. str_eq id row.evidence.event_id) ids
      then record row { resolved = true }
      else row)
    ∷ resolve_failures ids rows

-- The evidence table is `none` where its migration has not been applied: then the first statement
-- fails, the savepoint is rolled back, and the answer is `false`.
unfoldable pub record_ledger_failure_evidence :
    List EventFailureEvidence
    → List String
    → Option (List FailureRow)
    → Option (List FailureRow) × Bool
unfolding upsert_failures upsert_failure resolve_failures
record_ledger_failure_evidence [] [] table = (table, true)
record_ledger_failure_evidence failures succeeded none = (none, false)
record_ledger_failure_evidence failures succeeded (some rows) =
    (some (resolve_failures succeeded (upsert_failures failures rows)), true)
