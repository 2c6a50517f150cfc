-- ===== src/Replay/Retry.antt =====
-- indexer/src/db/replay.ts, `prepareFailedEventRetry`: the cursor is moved back so that skipped events
-- are tried again. It writes nothing but the cursor. The row of the cursor is taken to be there;
-- without the table of failures its query is an error.
pub mod Laws
mod Tests
use circleup.Prelude.{
  ℕ, suc, ◌+◌, min, String, Bool, true, false, not, ◌&&◌, Option, none, some, List, [], ◌∷◌, length,
  keep, map, leb, ltb, if◌then◌else◌, str_eq,
}
use circleup.Prelude.Text.{join, decimal}
use circleup.Failures.{FailureRow}
use circleup.Ingest.{Db}
use circleup.Replay.{LedgerNumber, ledger_number, no_ledger, cursor_after_replay}

-- Without `from_ledger` the oldest open failure is taken.
pub record FailedEventRetryOptions : Type 0 where
  pub from_ledger : Option LedgerNumber
  pub confirm : Option String

pub data RetryOutcome : Type 0 where
  nothing_open : (previous_cursor : ℕ) → RetryOutcome
  not_passed : (from_ledger open_failures previous_cursor : ℕ) → RetryOutcome
  rewound : (from_ledger open_failures previous_cursor new_cursor : ℕ) → RetryOutcome
  invalid_from : RetryOutcome
  unconfirmed : (expected : String) → RetryOutcome
  no_failure_table : RetryOutcome

-- `replayConfirmationToken("retry-failed", fromLedger)`
unfoldable pub retry_token : ℕ → String
unfolding join decimal
retry_token from_ledger = join "-" ("replay" ∷ "retry-failed" ∷ "from" ∷ decimal from_ledger ∷ [])

abbrev pub confirms : ℕ → Option String → Bool
confirms from_ledger none = false
confirms from_ledger (some text) = str_eq text (retry_token from_ledger)

-- `resolved_at IS NULL AND acknowledged_at IS NULL`
abbrev pub is_open : FailureRow → Bool
is_open row = not row.resolved && not row.acknowledged

abbrev pub earlier : ℕ → Option ℕ → Option ℕ
earlier l none = some l
earlier l (some m) = some (min l m)

-- SELECT MIN(ledger) over the open failures
unfoldable pub oldest_open : List FailureRow → Option ℕ
oldest_open [] = none
oldest_open (row ∷ rows) =
    let rest = oldest_open rows in if is_open row then earlier row.evidence.ledger rest else rest

-- SELECT COUNT(*) over those from `from_ledger` on
unfoldable pub count_open : ℕ → List FailureRow → ℕ
count_open from_ledger rows =
    length (keep (λ row. is_open row && leb from_ledger row.evidence.ledger) rows)

module _ {T : Type 0} where
  unfoldable pub rewind : ℕ → Option String → List FailureRow → Db T → Db T × RetryOutcome
  unfolding count_open cursor_after_replay
  rewind from_ledger confirm rows db =
      let open_failures = count_open from_ledger rows in
      let new_cursor = cursor_after_replay from_ledger in
      if not (confirms from_ledger confirm)
      then (db, unconfirmed (retry_token from_ledger))
      else if ltb db.last_ledger from_ledger
      then (db, not_passed from_ledger open_failures db.last_ledger)
      else (
        record db { last_ledger = new_cursor },
        rewound from_ledger open_failures db.last_ledger new_cursor,
      )

  -- `opts.fromLedger ?? oldestOpen`
  unfoldable pub retry_from :
      Option ℕ → Option String → List FailureRow → Db T → Db T × RetryOutcome
  unfolding rewind
  retry_from none confirm rows db = (db, nothing_open db.last_ledger)
  retry_from (some from_ledger) confirm rows db = rewind from_ledger confirm rows db

  -- The transaction, from a ledger that is given or not.
  unfoldable pub retry_in_tx :
      Option ℕ → Option String → Option (List FailureRow) → Db T → Db T × RetryOutcome
  unfolding retry_from oldest_open
  retry_in_tx given confirm none db = (db, no_failure_table)
  retry_in_tx (some from_ledger) confirm (some rows) db =
      retry_from (some from_ledger) confirm rows db
  retry_in_tx none confirm (some rows) db = retry_from (oldest_open rows) confirm rows db

  unfoldable pub retry_with :
      Option LedgerNumber → Option String → Option (List FailureRow) → Db T → Db T × RetryOutcome
  unfolding retry_in_tx
  retry_with none confirm table db = retry_in_tx none confirm table db
  retry_with (some no_ledger) confirm table db = (db, invalid_from)
  retry_with (some (ledger_number n)) confirm table db =
      let ran = retry_in_tx (some n) confirm table db in
      if not (confirms n confirm) then (db, unconfirmed (retry_token n)) else ran

  unfoldable pub prepare_failed_event_retry : FailedEventRetryOptions → Db T → Db T × RetryOutcome
  unfolding retry_with
  prepare_failed_event_retry opts db = retry_with opts.from_ledger opts.confirm db.event_failures db
