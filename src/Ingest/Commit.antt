-- ===== src/Ingest/Commit.antt =====
-- indexer/src/indexer.ts, `processLedger`: a ledger commits whole or leaves the database as it was.
use circleup.Prelude.{
  ℕ, suc, ◌+◌, ◌≡◌, refl, Option, none, some, List, [], ◌∷◌, ◌==◌, if◌then◌else◌, arith, length,
  All,
}
use circleup.Failures.{transient, permanent, HandlerError, classify_handler_error}
use circleup.Ingest.{
  threw, EventHandler, LedgerCheckpoint, Db, Metrics, Batch, Attempt, go_on, abort, LoopEnd, ended,
  aborted, attempt, continue_with, run_items, start, put_checkpoint, LedgerResult, returned, raised,
  conclude, process_ledger,
}
use circleup.Ingest.Cases.{Outcome, was_known, was_stored, was_recorded, was_aborted, attempt_cases}

abbrev pub checkpoint_at : ℕ → List LedgerCheckpoint → Option (ℕ × ℕ)
checkpoint_at l [] = none
checkpoint_at l (c ∷ cs) =
    if c.ledger == l then some (c.events_count, c.failed_count) else checkpoint_at l cs

checkpoint_at-put_checkpoint :
    (c : LedgerCheckpoint) (l : ℕ) (cs : List LedgerCheckpoint)
    → checkpoint_at l (put_checkpoint c cs)
      ≡ (if c.ledger == l then some (c.events_count, c.failed_count) else checkpoint_at l cs)
unfolding put_checkpoint
checkpoint_at-put_checkpoint c l [] = refl
checkpoint_at-put_checkpoint c l (d ∷ ds) = ground (arith, checkpoint_at-put_checkpoint c l ds)

module _ {T : Type 0} where
  -- How far a batch has come: every event is counted once, and a processed one has a dedup row.
  abbrev Advanced : Batch T → Batch T → ℕ → Type 0
  Advanced b b' n =
      (b'.processed + b'.failed + b'.skipped ≡ b.processed + b.failed + b.skipped + n)
      × (length b'.ingested_events + b.processed ≡ length b.ingested_events + b'.processed)

  abbrev AttemptFacts : Batch T → Attempt T → Type 0
  AttemptFacts b (go_on b') = Advanced b b' 1
  AttemptFacts b (abort err) = classify_handler_error err ≡ transient

  Outcome-AttemptFacts :
      {item : EventHandler T} {b : Batch T} {a : Attempt T} → Outcome item b a → AttemptFacts b a
  Outcome-AttemptFacts (was_known k) = omega arith
  Outcome-AttemptFacts (was_stored k t e) = omega arith
  Outcome-AttemptFacts (was_recorded k err e c) = omega arith
  Outcome-AttemptFacts (was_aborted k err e c) = c

  abbrev LoopFacts : ℕ → Batch T → LoopEnd T → Type 0
  LoopFacts n b (ended b') = Advanced b b' n
  LoopFacts n b (aborted err b') = classify_handler_error err ≡ transient

  LoopFacts-suc :
      (n : ℕ) (b b' : Batch T) (end : LoopEnd T)
      → Advanced b b' 1
      → LoopFacts n b' end
      → LoopFacts (suc n) b end
  LoopFacts-suc n b b' (ended b'') h k = omega arith
  LoopFacts-suc n b b' (aborted err _) h k = k

  continue_with-LoopFacts :
      (items : List (EventHandler T)) (b : Batch T) (a : Attempt T)
      → ((b' : Batch T) → LoopFacts (length items) b' (run_items items b'))
      → AttemptFacts b a
      → LoopFacts (suc (length items)) b (continue_with (run_items items) b a)
  continue_with-LoopFacts items b (go_on b') ih h =
      LoopFacts-suc (length items) b b' (run_items items b') h (ih b')
  continue_with-LoopFacts items b (abort err) ih h = h

  run_items-LoopFacts :
      (items : List (EventHandler T)) (b : Batch T) → LoopFacts (length items) b (run_items items b)
  unfolding run_items
  run_items-LoopFacts [] b = omega arith
  run_items-LoopFacts (item ∷ items) b =
      continue_with-LoopFacts items b (attempt item b) (run_items-LoopFacts items)
        (Outcome-AttemptFacts (attempt_cases item b))

  -- What a run of `processLedger` leaves, by its result.
  abbrev pub Settles :
      ℕ → List (EventHandler T) → Db T → Metrics → Db T → Metrics → LedgerResult → Type 0
  Settles ledger items db m db' m' (raised err) =
      (db' ≡ db) × (classify_handler_error err ≡ transient) × (m'.retried ≡ m.retried + 1)
  Settles ledger items db m db' m' (returned processed failed) =
      (db'.last_ledger ≡ ledger)
      × (checkpoint_at ledger db'.checkpoints ≡ some (processed, failed))
      × (length db'.ingested_events ≡ length db.ingested_events + processed)
      × (m'.processed ≡ m.processed + processed)
      × (m'.failed ≡ m.failed + failed)
      × (m'.skipped + processed + failed ≡ m.skipped + length items)
      × (m'.retried ≡ m.retried)

  conclude-Settles :
      (ledger : ℕ) (items : List (EventHandler T)) (db : Db T) (m : Metrics) (end : LoopEnd T)
      → LoopFacts (length items) (start db) end
      → let (db', m', r) = conclude ledger db m end in Settles ledger items db m db' m' r
  unfolding conclude
  conclude-Settles ledger items db m (ended b) h = ground (
    arith,
    checkpoint_at-put_checkpoint
        (record { ledger = ledger; events_count = b.processed; failed_count = b.failed }) ledger
        db.checkpoints,
  )
  conclude-Settles ledger items db m (aborted err b) h = ground arith

-- A ledger commits whole or not at all. If it returns, the cursor is at the ledger, the ledger's
-- checkpoint has the two counts that it returns, each processed event added one dedup row, and
-- every event was processed, failed or skipped. If it raises, the error is a transient one, the
-- database is as it was, and one retry more is counted.
pub process_ledger-Settles :
    {T : Type 0} (ledger : ℕ) (items : List (EventHandler T)) (db : Db T) (m : Metrics)
    → let (db', m', r) = process_ledger ledger items db m in Settles ledger items db m db' m' r
unfolding process_ledger
process_ledger-Settles ledger items db m =
    conclude-Settles ledger items db m (run_items items (start db))
      (run_items-LoopFacts items (start db))

module _ {T : Type 0} where
  -- No handler of the list raises a transient error, whatever the tables.
  abbrev pub Steady : List (EventHandler T) → Type 0
  Steady = All (λ item.
      (tables : T) (err : HandlerError)
      → item.handler tables ≡ threw err
      → classify_handler_error err ≡ permanent)

  abbrev IsEnded : LoopEnd T → Type 0
  IsEnded end = (b : Batch T) × (end ≡ ended b)

  Outcome-go_on :
      {item : EventHandler T} {b : Batch T} {a : Attempt T}
      → ((tables : T) (err : HandlerError)
          → item.handler tables ≡ threw err
          → classify_handler_error err ≡ permanent)
      → Outcome item b a
      → (b' : Batch T) × (a ≡ go_on b')
  Outcome-go_on steady (was_known k) = (_, refl)
  Outcome-go_on steady (was_stored k t e) = (_, refl)
  Outcome-go_on steady (was_recorded k err e c) = (_, refl)
  Outcome-go_on {b = b} steady (was_aborted k err e c) = ground (arith, steady b.tables err e)

  run_items-IsEnded :
      (items : List (EventHandler T)) (b : Batch T) → Steady items → IsEnded (run_items items b)
  unfolding run_items
  run_items-IsEnded [] b h = (b, refl)
  run_items-IsEnded (item ∷ items) b (h, hs) =
      let (b', e) = Outcome-go_on h (attempt_cases item b) in rw e (run_items-IsEnded items b' hs)

-- A ledger none of whose handlers raises an error that is classed as transient commits, however many
-- of its events fail, so that failures classed as permanent do not hold the cursor back.
pub process_ledger_commits :
    {T : Type 0} (ledger : ℕ) (items : List (EventHandler T)) (db : Db T) (m : Metrics)
    → Steady items
    → (processed : ℕ) × (failed : ℕ) × ((process_ledger ledger items db m).2
        ≡ returned processed failed)
unfolding process_ledger
process_ledger_commits ledger items db m h =
    let (b, e) = run_items-IsEnded items (start db) h in (b.processed, b.failed, rw e)
