-- ===== src/Ingest/Cases.antt =====
-- indexer/src/indexer.ts, `processLedger`: the four things that may come of one event.
use circleup.Prelude.{
  List, [], ◌+◌, ◌≡◌, refl, ◌⊎◌, inl, inr, true, false, [], ◌∷◌, ◌++◌, Bool-cases,
}
use circleup.Failures.{
  HandlerErrorClass, transient, permanent, HandlerError, classify_handler_error,
}
use circleup.Ingest.{
  run_items, continue_with, LoopEnd, ended, aborted, Handled, done, threw, EventHandler,
  is_ingested, Batch, evidence_of, Attempt, go_on, abort, attempt,
}

-- An event is known and skipped, or it is projected, or its handler fails: for good, and it is
-- recorded, or because of the database, and the ledger is aborted.
pub data Outcome {T : Type 0} (item : EventHandler T) (b : Batch T) : Attempt T → Type 0 where
  was_known :
      is_ingested item.event b.ingested_events ≡ true
      → Outcome item b (go_on (record b { skipped = b.skipped + 1 }))
  was_stored :
      is_ingested item.event b.ingested_events ≡ false
      → (tables : T) → item.handler b.tables ≡ done tables
      → Outcome item b (
          go_on (record b {
            tables = tables;
            ingested_events = item.event ∷ b.ingested_events;
            processed = b.processed + 1;
            succeeded = b.succeeded ++ item.event.failure_id ∷ [];
          }))
  was_recorded :
      is_ingested item.event b.ingested_events ≡ false
      → (err : HandlerError) → item.handler b.tables ≡ threw err
      → classify_handler_error err ≡ permanent
      → Outcome item b (
          go_on (record b {
            failed = b.failed + 1;
            failures = b.failures ++ evidence_of item.event err ∷ [];
          }))
  was_aborted :
      is_ingested item.event b.ingested_events ≡ false
      → (err : HandlerError) → item.handler b.tables ≡ threw err
      → classify_handler_error err ≡ transient
      → Outcome item b (abort err)

class-cases : (c : HandlerErrorClass) → (c ≡ transient) ⊎ (c ≡ permanent)
class-cases transient = inl refl
class-cases permanent = inr refl

module _ {T : Type 0} where
  Handled-cases : (h : Handled T) → ((t : T) × (h ≡ done t)) ⊎ ((e : HandlerError) × (h ≡ threw e))
  Handled-cases (done t) = inl (t, refl)
  Handled-cases (threw e) = inr (e, refl)

  pub attempt_cases : (item : EventHandler T) (b : Batch T) → Outcome item b (attempt item b)
  unfolding attempt
  attempt_cases item b = elim (Bool-cases (is_ingested item.event b.ingested_events)) [
    | inl old ↦ rw old (was_known old)
    | inr new ↦ elim (Handled-cases (item.handler b.tables)) [
      | inl (t, e) ↦ rw (new, e) (was_stored new t e)
      | inr (err, e) ↦ elim (class-cases (classify_handler_error err)) [
        | inl tr ↦ rw (new, e, tr) (was_aborted new err e tr)
        | inr pe ↦ rw (new, e, pe) (was_recorded new err e pe)
      ]
    ]
  ]

  -- What holds of the batch that a loop ends with, if it is not aborted.
  abbrev pub OnEnd : (Batch T → Type 0) → LoopEnd T → Type 0
  OnEnd P (ended b) = P b
  OnEnd P (aborted err b) = Unit

  OnEnd-map :
      (P Q : Batch T → Type 0) (end : LoopEnd T)
      → ((b : Batch T) → P b → Q b)
      → OnEnd P end
      → OnEnd Q end
  OnEnd-map P Q (ended b) f h = f b h
  OnEnd-map P Q (aborted err b) f h = tt

  module _ (R : List (EventHandler T) → Batch T → Batch T → Type 0)
      (stop : (b : Batch T) → R [] b b)
      (next : (item : EventHandler T) (items : List (EventHandler T)) (b c d : Batch T)
        → Outcome item b (go_on c)
        → R items c d
        → R (item ∷ items) b d) where
    continue_rule :
        (item : EventHandler T) (items : List (EventHandler T)) (b : Batch T) (a : Attempt T)
        → Outcome item b a
        → ((c : Batch T) → OnEnd (R items c) (run_items items c))
        → OnEnd (R (item ∷ items) b) (continue_with (run_items items) b a)
    continue_rule item items b (go_on c) o ih =
        OnEnd-map (R items c) (R (item ∷ items) b) (run_items items c)
          (λ d r. next item items b c d o r) (ih c)
    continue_rule item items b (abort err) o ih = tt

    -- The loop by its events: what holds of no event, and is kept by one event before others.
    pub loop_rule :
        (items : List (EventHandler T)) (b : Batch T) → OnEnd (R items b) (run_items items b)
    unfolding run_items
    loop_rule [] b = stop b
    loop_rule (item ∷ items) b =
        continue_rule item items b (attempt item b) (attempt_cases item b) (loop_rule items)
