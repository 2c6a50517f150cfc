-- ===== src/Ingest.antt =====
-- indexer/src/indexer.ts, `ingestEventInTx` and `processLedger`: one ledger's events in one Postgres
-- transaction. The projection tables are a type `T` that only the handlers read and write. The
-- identity of an event is what `createEventKey`, `parseEventIndex` and `eventFailureId` give for it.
-- Statements other than a handler's are taken not to fail, but for the write of the evidence.
pub mod Cases
pub mod Commit
pub mod Replay
pub mod NoLoss
pub mod Tables
mod Tests
use circleup.Prelude.{
  ℕ, suc, ◌+◌, String, Bool, true, false, not, ◌&&◌, ◌||◌, Option, none, some, List, [], ◌∷◌, ◌++◌,
  any, ◌==◌, if◌then◌else◌, str_eq,
}
use circleup.Failures.{
  HandlerErrorClass, transient, permanent, HandlerError, classify_handler_error,
  EventFailureEvidence, FailureRow, record_ledger_failure_evidence,
}

pub record EventIdentity : Type 0 where
  pub event_key : String
  pub contract_id : Option String
  pub ledger : ℕ
  pub tx_hash : Option String
  pub event_type : String
  pub event_index : Option ℕ
  pub failure_id : String

pub data Handled (T : Type 0) : Type 0 where
  done : T → Handled T
  threw : HandlerError → Handled T

pub record EventHandler (T : Type 0) : Type 0 where
  pub event : EventIdentity
  pub handler : T → Handled T

pub record LedgerCheckpoint : Type 0 where
  pub ledger : ℕ
  pub events_count : ℕ
  pub failed_count : ℕ

pub record Db (T : Type 0) : Type 0 where
  pub tables : T
  pub ingested_events : List EventIdentity
  pub event_failures : Option (List FailureRow)
  pub last_ledger : ℕ
  pub checkpoints : List LedgerCheckpoint

-- The process-wide counters, which no rollback restores.
pub record Metrics : Type 0 where
  pub processed : ℕ
  pub failed : ℕ
  pub skipped : ℕ
  pub retried : ℕ

-- The unique index on (ledger, tx_hash, event_index): a null conflicts with nothing.
abbrev same_hash : Option String → Option String → Bool
same_hash (some h) (some k) = str_eq h k
same_hash _ _ = false

abbrev same_index : Option ℕ → Option ℕ → Bool
same_index (some i) (some j) = i == j
same_index _ _ = false

-- ON CONFLICT: the row's key is taken, or its position in the chain is.
unfoldable pub conflicts : EventIdentity → EventIdentity → Bool
conflicts e row =
    str_eq row.event_key e.event_key
    || (row.ledger == e.ledger
        && same_hash row.tx_hash e.tx_hash
        && same_index row.event_index e.event_index)

unfoldable pub is_ingested : EventIdentity → List EventIdentity → Bool
is_ingested e rows = any (conflicts e) rows

-- What the loop of `processLedger` carries.
pub record Batch (T : Type 0) : Type 0 where
  pub tables : T
  pub ingested_events : List EventIdentity
  pub processed : ℕ
  pub failed : ℕ
  pub skipped : ℕ
  pub failures : List EventFailureEvidence
  pub succeeded : List String

abbrev pub evidence_of : EventIdentity → HandlerError → EventFailureEvidence
evidence_of e err = record {
  event_id = e.failure_id;
  ledger = e.ledger;
  tx_hash = e.tx_hash;
  contract_id = e.contract_id;
  event_type = e.event_type;
  error_class = classify_handler_error err;
  error_name = elim err.code [
    | none ↦ err.name
    | some code ↦ if str_eq code "" then err.name else code
  ];
}

pub data Ingested (T : Type 0) : Type 0 where
  stored : T → List EventIdentity → Ingested T
  duplicate : Ingested T
  failed_with : HandlerError → Ingested T

-- An event of the loop, by what its savepoint came to: a transient error aborts the ledger, any
-- other rolls back to the savepoint and is recorded.
pub data Attempt (T : Type 0) : Type 0 where
  go_on : Batch T → Attempt T
  abort : HandlerError → Attempt T

-- The loop, with the batch that an aborted ledger had reached.
pub data LoopEnd (T : Type 0) : Type 0 where
  ended : Batch T → LoopEnd T
  aborted : HandlerError → Batch T → LoopEnd T

module _ {T : Type 0} where
  -- Insert the dedup row, then run the handler; 0 inserted rows mean an event that is known.
  unfoldable pub ingest_event_in_tx : EventHandler T → T → List EventIdentity → Ingested T
  ingest_event_in_tx item tables rows =
      let ran = item.handler tables in
      if is_ingested item.event rows then duplicate else elim ran [
        | done tables' ↦ stored tables' (item.event ∷ rows)
        | threw err ↦ failed_with err
      ]

  settle_failure : EventIdentity → HandlerError → HandlerErrorClass → Batch T → Attempt T
  settle_failure e err transient b = abort err
  settle_failure e err permanent b =
      go_on (record b { failed = b.failed + 1; failures = b.failures ++ evidence_of e err ∷ [] })

  settle : EventIdentity → Ingested T → Batch T → Attempt T
  unfolding settle_failure
  settle e (stored tables rows) b = go_on (record b {
    tables = tables;
    ingested_events = rows;
    processed = b.processed + 1;
    succeeded = b.succeeded ++ e.failure_id ∷ [];
  })
  settle e duplicate b = go_on (record b { skipped = b.skipped + 1 })
  settle e (failed_with err) b = settle_failure e err (classify_handler_error err) b

  unfoldable pub attempt : EventHandler T → Batch T → Attempt T
  unfolding settle ingest_event_in_tx
  attempt item b = settle item.event (ingest_event_in_tx item b.tables b.ingested_events) b

  -- The next event, or the end of an aborted ledger.
  abbrev pub continue_with : (Batch T → LoopEnd T) → Batch T → Attempt T → LoopEnd T
  continue_with rest b (go_on b') = rest b'
  continue_with rest b (abort err) = aborted err b

  unfoldable pub run_items : List (EventHandler T) → Batch T → LoopEnd T
  run_items [] b = ended b
  run_items (item ∷ items) b = continue_with (run_items items) b (attempt item b)

  abbrev pub start : Db T → Batch T
  start db = record {
    tables = db.tables;
    ingested_events = db.ingested_events;
    processed = 0;
    failed = 0;
    skipped = 0;
    failures = [];
    succeeded = [];
  }

-- INSERT INTO ledger_checkpoints ... ON CONFLICT (ledger) DO UPDATE
pub put_checkpoint : LedgerCheckpoint → List LedgerCheckpoint → List LedgerCheckpoint
put_checkpoint c [] = c ∷ []
put_checkpoint c (d ∷ ds) = if d.ledger == c.ledger then c ∷ ds else d ∷ put_checkpoint c ds

abbrev pub add_metrics : {T : Type 0} → Batch T → ℕ → Metrics → Metrics
add_metrics b retried m = record {
  processed = m.processed + b.processed;
  failed = m.failed + b.failed;
  skipped = m.skipped + b.skipped;
  retried = m.retried + retried;
}

pub data LedgerResult : Type 0 where
  returned : ℕ → ℕ → LedgerResult
  raised : HandlerError → LedgerResult

module _ {T : Type 0} where
  -- The statements after the loop.
  pub finish : ℕ → Batch T → Db T → Db T
  unfolding put_checkpoint
  finish ledger b db = record {
    tables = b.tables;
    ingested_events = b.ingested_events;
    event_failures = (record_ledger_failure_evidence b.failures b.succeeded db.event_failures).0;
    last_ledger = ledger;
    checkpoints =
        put_checkpoint
          (record { ledger = ledger; events_count = b.processed; failed_count = b.failed })
          db.checkpoints;
  }

  -- `withTransaction`: an error rolls the database back to what it was.
  conclude : ℕ → Db T → Metrics → LoopEnd T → Db T × Metrics × LedgerResult
  unfolding finish
  conclude ledger db m (ended b) =
      (finish ledger b db, add_metrics b 0 m, returned b.processed b.failed)
  conclude ledger db m (aborted err b) = (db, add_metrics b 1 m, raised err)

  unfoldable pub process_ledger :
      ℕ → List (EventHandler T) → Db T → Metrics → Db T × Metrics × LedgerResult
  unfolding conclude run_items attempt
  process_ledger ledger items db m = conclude ledger db m (run_items items (start db))
