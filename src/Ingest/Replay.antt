-- ===== src/Ingest/Replay.antt =====
-- indexer/src/indexer.ts, `processLedger`: delivering a ledger again changes nothing, and an event
-- that is not ingested is on record.
use circleup.Prelude.{ℕ, ◌+◌, ◌≤◌, ◌≡◌, refl, ◌∙◌, true, List, [], ◌∷◌, arith, length, All}
use circleup.Failures.{record_ledger_failure_evidence}
use circleup.Ingest.{
  EventIdentity, EventHandler, Db, Metrics, is_ingested, conflicts, Batch, go_on, LoopEnd, ended,
  aborted, attempt, run_items, start, returned, finish, conclude, process_ledger,
}
use circleup.Ingest.Cases.{Outcome, was_known, was_stored, was_recorded, loop_rule, OnEnd}
use text.Mathlib.TextPositions.{eq_refl}

pub conflicts_refl :
    (e : EventIdentity) (rows : List EventIdentity) → is_ingested e (e ∷ rows) ≡ true
unfolding is_ingested conflicts
conflicts_refl e rows = ground (arith, eq_refl e.event_key)

pub ingested-cons :
    (e f : EventIdentity) (rows : List EventIdentity)
    → is_ingested e rows ≡ true
    → is_ingested e (f ∷ rows) ≡ true
unfolding is_ingested
ingested-cons e f rows h = ground arith

module _ {T : Type 0} where
  -- After a part of the loop: dedup rows are not taken back, failures are counted, and without a
  -- new failure every event of the part is known.
  record Known (items : List (EventHandler T)) (b d : Batch T) : Type 0 where
    kept :
        (e : EventIdentity)
        → is_ingested e b.ingested_events ≡ true
        → is_ingested e d.ingested_events ≡ true
    counted : b.failed ≤ d.failed
    known :
        d.failed ≡ b.failed → All (λ item. is_ingested item.event d.ingested_events ≡ true) items

  Known-next :
      (item : EventHandler T) (items : List (EventHandler T)) (b c d : Batch T)
      → Outcome item b (go_on c)
      → Known items c d
      → Known (item ∷ items) b d
  Known-next item items b c d (was_known k) r = record {
    kept = r.kept;
    counted = r.counted;
    known = λ e. (r.kept item.event k, r.known e);
  }
  Known-next item items b c d (was_stored k t e) r = record {
    kept = λ f h. r.kept f (ingested-cons f item.event b.ingested_events h);
    counted = r.counted;
    known = λ e. (r.kept item.event (conflicts_refl item.event b.ingested_events), r.known e);
  }
  Known-next item items b c d (was_recorded k err e p) r = record {
    kept = r.kept;
    counted = omega (arith, r.counted);
    known = λ same. absurd (omega (arith, r.counted));
  }

  run_items-Known :
      (items : List (EventHandler T)) (b : Batch T) → OnEnd (Known items b) (run_items items b)
  run_items-Known =
      loop_rule Known (λ b. record { kept = λ e h. h; counted = omega arith; known = λ e. tt })
        Known-next

  -- A batch whose events are all known goes through without any effect but the count of the
  -- skipped ones.
  run_items_known :
      (items : List (EventHandler T)) (b : Batch T)
      → All (λ item. is_ingested item.event b.ingested_events ≡ true) items
      → run_items items b ≡ ended (record b { skipped = b.skipped + length items })
  unfolding run_items attempt
  run_items_known [] b h = ground arith
  run_items_known (item ∷ items) b (h, hs) =
      rw h (run_items_known items (record b { skipped = b.skipped + 1 }) hs ∙ ground arith)

  abbrev AllKnown : List (EventHandler T) → Db T → Type 0
  AllKnown items db = All (λ item. is_ingested item.event db.ingested_events ≡ true) items

  conclude-AllKnown :
      (ledger : ℕ) (items : List (EventHandler T)) (db : Db T) (m : Metrics) (end : LoopEnd T)
      (p : ℕ)
      → OnEnd (Known items (start db)) end
      → (conclude ledger db m end).2 ≡ returned p 0
      → AllKnown items (conclude ledger db m end).0
  unfolding conclude
  conclude-AllKnown ledger items db m (ended b) p k e = k.known (ground arith)
  conclude-AllKnown ledger items db m (aborted err b) p k e = cc

  process_ledger-AllKnown :
      (ledger : ℕ) (items : List (EventHandler T)) (db : Db T) (m : Metrics) (p : ℕ)
      → (process_ledger ledger items db m).2 ≡ returned p 0
      → AllKnown items (process_ledger ledger items db m).0
  unfolding process_ledger
  process_ledger-AllKnown ledger items db m p e =
      conclude-AllKnown ledger items db m _ p (run_items-Known items (start db)) e

  process_ledger_known :
      (ledger : ℕ) (items : List (EventHandler T)) (db : Db T) (m : Metrics)
      → AllKnown items db
      → let (db', m', r) = process_ledger ledger items db m in
        (r ≡ returned 0 0)
        × (db'.tables ≡ db.tables)
        × (db'.ingested_events ≡ db.ingested_events)
        × (db'.event_failures ≡ db.event_failures)
  unfolding process_ledger conclude finish record_ledger_failure_evidence
  process_ledger_known ledger items db m h =
      rw (run_items_known items (start db) h) (refl, refl, refl, refl)

-- Delivery is effectively once. When a ledger has committed with no failed event, delivering it a
-- second time, after a crash or by a replay of the cursor, processes nothing: the projection tables,
-- the dedup rows and the failure evidence stay as the first run left them.
pub process_ledger_again :
    {T : Type 0} (ledger : ℕ) (items : List (EventHandler T)) (db : Db T) (m : Metrics) (p : ℕ)
    → (process_ledger ledger items db m).2 ≡ returned p 0
    → let (db', m', r) = process_ledger ledger items db m in
      let (db'', m'', r') = process_ledger ledger items db' m' in
      (r' ≡ returned 0 0)
      × (db''.tables ≡ db'.tables)
      × (db''.ingested_events ≡ db'.ingested_events)
      × (db''.event_failures ≡ db'.event_failures)
process_ledger_again ledger items db m p e =
    process_ledger_known ledger items _ _ (process_ledger-AllKnown ledger items db m p e)
