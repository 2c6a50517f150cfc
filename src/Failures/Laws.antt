-- ===== src/Failures/Laws.antt =====
-- indexer/src/eventFailures.ts: which events the evidence table shows as unresolved.
use circleup.Prelude.{
  ◌≡◌, refl, ap, ap, String, Bool, true, not, ◌&&◌, ◌||◌, some, List, [], ◌∷◌, any, str_eq, eq_iff,
  arith,
}
use circleup.Failures.{
  EventFailureEvidence, FailureRow, upsert_failure, upsert_failures, resolve_failures,
  record_ledger_failure_evidence,
}

abbrev pub unresolved : String → List FailureRow → Bool
unresolved id rows = any (λ row. str_eq row.evidence.event_id id && not row.resolved) rows

abbrev pub lists : String → List String → Bool
lists id ids = any (λ x. str_eq x id) ids

abbrev pub has_failed : String → List EventFailureEvidence → Bool
has_failed id fs = any (λ f. str_eq f.event_id id) fs

unresolved-upsert_failure :
    (id : String) (f : EventFailureEvidence) (rows : List FailureRow)
    → unresolved id (upsert_failure f rows) ≡ str_eq f.event_id id || unresolved id rows
unfolding upsert_failure
unresolved-upsert_failure id f [] = ground arith
unresolved-upsert_failure id f (row ∷ rows) = ground (
  arith,
  unresolved-upsert_failure id f rows,
  eq_iff row.evidence.event_id f.event_id,
  eq_iff row.evidence.event_id id,
  eq_iff f.event_id id,
)

unresolved-upsert_failures :
    (id : String) (fs : List EventFailureEvidence) (rows : List FailureRow)
    → unresolved id (upsert_failures fs rows) ≡ has_failed id fs || unresolved id rows
unfolding upsert_failures
unresolved-upsert_failures id [] rows = refl
unresolved-upsert_failures id (f ∷ fs) rows = ground (
  arith,
  unresolved-upsert_failures id fs (upsert_failure f rows),
  unresolved-upsert_failure id f rows,
)

lists-eq :
    (id other : String) (ids : List String)
    → str_eq other id ≡ true
    → lists other ids ≡ lists id ids
lists-eq id other ids h = ap (λ x. lists x ids) ((eq_iff other id).0 h)

unresolved-resolve_failures :
    (id : String) (ids : List String) (rows : List FailureRow)
    → unresolved id (resolve_failures ids rows) ≡ not (lists id ids) && unresolved id rows
unfolding resolve_failures
unresolved-resolve_failures id ids [] = ground arith
unresolved-resolve_failures id ids (row ∷ rows) =
    ground (arith, unresolved-resolve_failures id ids rows, lists-eq id row.evidence.event_id ids)

-- With the evidence table present the write succeeds, and an event is unresolved after it if and
-- only if it did not succeed in this ledger and either failed in it or was unresolved before.
pub unresolved-record :
    (id : String) (failures : List EventFailureEvidence) (succeeded : List String)
    (rows : List FailureRow)
    → let written = record_ledger_failure_evidence failures succeeded (some rows) in
      (after : List FailureRow) × (written ≡ (some after, true))
      × (unresolved id after
          ≡ not (lists id succeeded) && (has_failed id failures || unresolved id rows))
unfolding record_ledger_failure_evidence
unresolved-record id [] [] rows = (rows, refl, ground arith)
unresolved-record id [] (s ∷ ss) rows =
    (resolve_failures (s ∷ ss) rows, refl, unresolved-resolve_failures id (s ∷ ss) rows)
unresolved-record id (f ∷ fs) succeeded rows = (
  resolve_failures succeeded (upsert_failures (f ∷ fs) rows),
  refl,
  ground (
    arith,
    unresolved-resolve_failures id succeeded (upsert_failures (f ∷ fs) rows),
    unresolved-upsert_failures id (f ∷ fs) rows,
  ),
)
