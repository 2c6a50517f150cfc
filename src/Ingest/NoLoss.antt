-- ===== src/Ingest/NoLoss.antt =====
-- indexer/src/indexer.ts, `processLedger`: an event that is not ingested is on record as a failure.
use circleup.Prelude.{
  ℕ, ◌≡◌, ◌≢◌, refl, ap, ◌∙◌, ◌⊎◌, inl, inr, String, true, false, ◌||◌, some, List, [], ◌∷◌, ◌++◌,
  str_eq, arith, All,
}
use circleup.Failures.{EventFailureEvidence, FailureRow}
use circleup.Ingest.{
  EventIdentity, EventHandler, Db, Metrics, is_ingested, Batch, evidence_of, go_on, LoopEnd, ended,
  aborted, run_items, start, returned, finish, conclude, process_ledger,
}
use circleup.Ingest.Cases.{Outcome, was_known, was_stored, was_recorded, loop_rule, OnEnd}
use circleup.Failures.Laws.{unresolved, lists, has_failed, unresolved-record}
use circleup.Ingest.Replay.{conflicts_refl, ingested-cons}
use circleup.Prelude.{eq_iff}

lists-append :
    (id s : String) (ids : List String) → lists id (ids ++ s ∷ []) ≡ lists id ids || str_eq s id
lists-append id s [] = ground arith
lists-append id s (x ∷ ids) = ground (arith, lists-append id s ids)

has_failed-append :
    (id : String) (f : EventFailureEvidence) (fs : List EventFailureEvidence)
    → has_failed id (fs ++ f ∷ []) ≡ has_failed id fs || str_eq f.event_id id
has_failed-append id f [] = ground arith
has_failed-append id f (g ∷ fs) = ground (arith, has_failed-append id f fs)

module _ {T : Type 0} where
  -- No later event has this identity; the identities of a list are distinct.
  abbrev pub Absent : String → List (EventHandler T) → Type 0
  Absent id = All (λ j. j.event.failure_id ≢ id)

  abbrev pub Distinct : List (EventHandler T) → Type 0
  Distinct [] = Unit
  Distinct (item ∷ items) = Absent item.event.failure_id items × Distinct items

  abbrev Landed : EventHandler T → Batch T → Type 0
  Landed j d =
      (is_ingested j.event d.ingested_events ≡ true)
      ⊎ ((has_failed j.event.failure_id d.failures ≡ true)
          × (lists j.event.failure_id d.succeeded ≡ false))

  abbrev Fresh : Batch T → List (EventHandler T) → Type 0
  Fresh b = All (λ j. lists j.event.failure_id b.succeeded ≡ false)

  record Accounted (items : List (EventHandler T)) (b d : Batch T) : Type 0 where
    rows_kept :
        (e : EventIdentity)
        → is_ingested e b.ingested_events ≡ true
        → is_ingested e d.ingested_events ≡ true
    failures_kept :
        (id : String) → has_failed id b.failures ≡ true → has_failed id d.failures ≡ true
    others_kept : (id : String) → Absent id items → lists id d.succeeded ≡ lists id b.succeeded
    landed : Distinct items → Fresh b items → All (λ j. Landed j d) items

  Fresh-append :
      (b : Batch T) (id : String) (items : List (EventHandler T))
      → Absent id items
      → Fresh b items
      → All (λ j. lists j.event.failure_id (b.succeeded ++ id ∷ []) ≡ false) items
  Fresh-append b id [] a f = tt
  Fresh-append b id (j ∷ items) (a, rest) (f, fs) = (
    ground (arith, lists-append j.event.failure_id id b.succeeded, eq_iff id j.event.failure_id),
    Fresh-append b id items rest fs,
  )

  Accounted-next :
      (item : EventHandler T) (items : List (EventHandler T)) (b c d : Batch T)
      → Outcome item b (go_on c)
      → Accounted items c d
      → Accounted (item ∷ items) b d
  Accounted-next item items b c d (was_known k) r = record {
    rows_kept = r.rows_kept;
    failures_kept = r.failures_kept;
    others_kept = λ id a. r.others_kept id a.1;
    landed = λ u f. (inl (r.rows_kept item.event k), r.landed u.1 f.1);
  }
  Accounted-next item items b c d (was_stored k t e) r = record {
    rows_kept = λ g h. r.rows_kept g (ingested-cons g item.event b.ingested_events h);
    failures_kept = r.failures_kept;
    others_kept = λ id a. ground (
      arith,
      r.others_kept id a.1,
      a.0,
      lists-append id item.event.failure_id b.succeeded,
      eq_iff item.event.failure_id id,
    );
    landed = λ u f. (
      inl (r.rows_kept item.event (conflicts_refl item.event b.ingested_events)),
      r.landed u.1 (Fresh-append b item.event.failure_id items u.0 f.1),
    );
  }
  Accounted-next item items b c d (was_recorded k err e p) r = record {
    rows_kept = r.rows_kept;
    failures_kept = λ id h.
        r.failures_kept id
          (ground (arith, h, has_failed-append id (evidence_of item.event err) b.failures));
    others_kept = λ id a. r.others_kept id a.1;
    landed = λ u f. (
      inr (
        r.failures_kept item.event.failure_id (
            ground (
              arith,
              has_failed-append item.event.failure_id (evidence_of item.event err) b.failures,
              eq_iff item.event.failure_id item.event.failure_id,
            )),
        r.others_kept item.event.failure_id u.0 ∙ f.0,
      ),
      r.landed u.1 f.1,
    );
  }

  run_items-Accounted :
      (items : List (EventHandler T)) (b : Batch T) → OnEnd (Accounted items b) (run_items items b)
  run_items-Accounted =
      loop_rule Accounted
        (λ b. record {
          rows_kept = λ e h. h;
          failures_kept = λ id h. h;
          others_kept = λ id a. refl;
          landed = λ u f. tt;
        })
        Accounted-next

  Fresh-start : (db : Db T) (items : List (EventHandler T)) → Fresh (start db) items
  Fresh-start db [] = tt
  Fresh-start db (j ∷ items) = (refl, Fresh-start db items)

  -- The event is ingested, or the failure table shows it as unresolved.
  abbrev pub OnRecord : Db T → EventHandler T → Type 0
  OnRecord db item =
      (is_ingested item.event db.ingested_events ≡ true)
      ⊎ ((rows : List FailureRow) × (db.event_failures ≡ some rows)
          × (unresolved item.event.failure_id rows ≡ true))

  Landed-OnRecord :
      (ledger : ℕ) (db : Db T) (rows : List FailureRow) (b : Batch T) (item : EventHandler T)
      → db.event_failures ≡ some rows
      → Landed item b
      → OnRecord (finish ledger b db) item
  unfolding finish
  Landed-OnRecord ledger db rows b item here (inl k) = inl k
  Landed-OnRecord ledger db rows b item here (inr (failed, lone)) =
      let (after, written, shown) =
        unresolved-record item.event.failure_id b.failures b.succeeded rows in
      inr (after, rw here (ap (λ w. w.0) written), ground (arith, shown, failed, lone))

  All-OnRecord :
      (ledger : ℕ) (db : Db T) (rows : List FailureRow) (b : Batch T)
      (items : List (EventHandler T))
      → db.event_failures ≡ some rows
      → All (λ j. Landed j b) items
      → All (OnRecord (finish ledger b db)) items
  All-OnRecord ledger db rows b [] here h = tt
  All-OnRecord ledger db rows b (j ∷ items) here (h, hs) =
      (Landed-OnRecord ledger db rows b j here h, All-OnRecord ledger db rows b items here hs)

  conclude-OnRecord :
      (ledger : ℕ) (items : List (EventHandler T)) (db : Db T) (m : Metrics)
      (rows : List FailureRow) (end : LoopEnd T) (p f : ℕ)
      → Distinct items
      → db.event_failures ≡ some rows
      → OnEnd (Accounted items (start db)) end
      → (conclude ledger db m end).2 ≡ returned p f
      → All (OnRecord (conclude ledger db m end).0) items
  unfolding conclude
  conclude-OnRecord ledger items db m rows (ended b) p f u here a e =
      All-OnRecord ledger db rows b items here (a.landed u (Fresh-start db items))
  conclude-OnRecord ledger items db m rows (aborted err b) p f u here a e = cc

-- No event is lost. When a ledger has committed, over a database that has the evidence table, each
-- of its events either is ingested or is shown by that table as an unresolved failure, provided that
-- the events have distinct identities.
pub process_ledger_no_loss :
    {T : Type 0} (ledger : ℕ) (items : List (EventHandler T)) (db : Db T) (m : Metrics)
    (rows : List FailureRow) (p f : ℕ)
    → Distinct items
    → db.event_failures ≡ some rows
    → (process_ledger ledger items db m).2 ≡ returned p f
    → All (OnRecord (process_ledger ledger items db m).0) items
unfolding process_ledger
process_ledger_no_loss ledger items db m rows p f u here e =
    conclude-OnRecord ledger items db m rows _ p f u here (run_items-Accounted items (start db)) e
