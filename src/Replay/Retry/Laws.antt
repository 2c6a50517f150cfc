-- ===== src/Replay/Retry/Laws.antt =====
-- indexer/src/db/replay.ts, `prepareFailedEventRetry`: what it changes, and what is tried again.
use circleup.Prelude.{
  ℕ, ◌+◌, ◌≤◌, ◌≡◌, String, Bool, true, false, Option, none, some, List, [], ◌∷◌, ltb,
  if◌then◌else◌, All, arith,
}
use circleup.Failures.{FailureRow}
use circleup.Ingest.{Db}
use circleup.Poll.{PollConfig, Sources}
use circleup.Poll.Cycle.{resume_at}
use circleup.Replay.{LedgerNumber, cursor_after_replay}
use circleup.Replay.Retry.{
  FailedEventRetryOptions, RetryOutcome, rewound, confirms, is_open, earlier, oldest_open, rewind,
  retry_from, retry_in_tx, retry_with, prepare_failed_event_retry,
}

-- Every open failure is at `from_ledger` or after it.
abbrev pub AllFrom : ℕ → List FailureRow → Type 0
AllFrom from_ledger = All (λ row. is_open row ≡ true → from_ledger ≤ row.evidence.ledger)

-- `from_ledger` is no later than the oldest open failure, if there is one.
abbrev Bounds : ℕ → Option ℕ → Type 0
Bounds from_ledger none = Unit
Bounds from_ledger (some l) = from_ledger ≤ l

Bounds-earlier :
    (f l : ℕ) (b : Bool) (rest : Option ℕ)
    → Bounds f (if b then earlier l rest else rest)
    → (b ≡ true → f ≤ l) × Bounds f rest
Bounds-earlier f l true none h = (λ e. h, tt)
Bounds-earlier f l true (some m) h = (λ e. omega (arith, h), omega (arith, h))
Bounds-earlier f l false rest h = (λ e. absurd (ground (arith, e)), h)

oldest_open-AllFrom :
    (f : ℕ) (rows : List FailureRow) → Bounds f (oldest_open rows) → AllFrom f rows
unfolding oldest_open
oldest_open-AllFrom f [] h = tt
oldest_open-AllFrom f (row ∷ rows) h =
    let (here, below) = Bounds-earlier f row.evidence.ledger (is_open row) (oldest_open rows) h in
    (here, oldest_open-AllFrom f rows below)

-- Of a ledger that was not given: every open failure is at it or after it.
abbrev Covers : Option LedgerNumber → Option (List FailureRow) → ℕ → Type 0
Covers none (some rows) from_ledger = AllFrom from_ledger rows
Covers _ _ from_ledger = Unit

module _ {T : Type 0} where
  -- A retry that rewinds changes the cursor alone, and moves it back, to just before the ledger that
  -- was confirmed; what else a rewind is known to satisfy is `P` of that ledger.
  abbrev Rewinds : (ℕ → Type 0) → Option String → Db T → Db T × RetryOutcome → Type 0
  Rewinds P confirm db (db', rewound from_ledger open_failures previous new_cursor) =
      (db' ≡ record db { last_ledger = new_cursor })
      × (previous ≡ db.last_ledger)
      × (from_ledger ≤ previous)
      × (new_cursor ≤ previous)
      × (1 ≤ from_ledger → new_cursor + 1 ≡ from_ledger)
      × (confirms from_ledger confirm ≡ true)
      × P from_ledger
  Rewinds P confirm db (db', outcome) = db' ≡ db

  abbrev pub Retries : FailedEventRetryOptions → Db T → Db T × RetryOutcome → Type 0
  Retries opts db r = Rewinds (Covers opts.from_ledger db.event_failures) opts.confirm db r

-- A retry without a given ledger that is confirmed for the oldest open failure, at a ledger from 2 to
-- the cursor, lets the next poll begin its window at exactly that ledger; every open failure is at
-- it or after it.
pub prepare_failed_event_retry_reaches :
    {T : Type 0} (config : PollConfig) (sources : Sources T) (confirm : Option String) (db : Db T)
    (rows : List FailureRow) (f : ℕ)
    → db.event_failures ≡ some rows
    → oldest_open rows ≡ some f
    → confirms f confirm ≡ true
    → 2 ≤ f
    → f ≤ db.last_ledger
    → (let (db', outcome) =
          prepare_failed_event_retry (record { from_ledger = none; confirm = confirm }) db in
        (resume_at config sources db' + 1 ≡ f) × AllFrom f rows)
unfolding prepare_failed_event_retry retry_with retry_in_tx retry_from rewind cursor_after_replay
prepare_failed_event_retry_reaches config sources confirm db rows f failures oldest agreed low
      high =
    let behind : ltb db.last_ledger f ≡ false = ground (arith, high) in
    (
      simp (failures, oldest, agreed, behind) (ground (arith, low)),
      oldest_open-AllFrom f rows (rw oldest (omega arith)),
    )
