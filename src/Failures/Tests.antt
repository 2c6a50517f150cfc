-- ===== src/Failures/Tests.antt =====
-- indexer/src/eventFailures.ts: classes of errors, and one write of evidence.
use circleup.Prelude.{String, ◌≡◌, refl, true, false, not, ◌&&◌, ◌||◌, none, some, List, [], ◌∷◌}
use circleup.Failures.{
  transient, permanent, classify_handler_error, event_failure_id, EventFailureEvidence, FailureRow,
  record_ledger_failure_evidence,
}
use circleup.Failures.Laws.{unresolved, lists, has_failed, unresolved-record}

abbrev evidence : String → EventFailureEvidence
evidence id = record {
  event_id = id;
  ledger = 7;
  tx_hash = some "t";
  contract_id = some "CA";
  event_type = "circle/joined";
  error_class = permanent;
  error_name = "Error";
}

abbrev old_row : FailureRow
old_row = record { evidence = evidence "a"; attempts = 2; resolved = false; acknowledged = false }

serialization_is_transient :
    classify_handler_error (record { code = some "40001"; name = "error"; message = "x" })
    ≡ transient
unfolding classify_handler_error
serialization_is_transient = refl

not_null_is_permanent :
    classify_handler_error (record { code = some "23502"; name = "error"; message = "x" })
    ≡ permanent
unfolding classify_handler_error
not_null_is_permanent = refl

composite_id : event_failure_id none 120 (some "t") none "circle/paused" ≡ "120:t::circle/paused"
unfolding event_failure_id
composite_id = refl

-- Event "a" succeeds at last and "b" fails.
unresolved-record_example :
    let written =
      record_ledger_failure_evidence (evidence "b" ∷ []) ("a" ∷ []) (some (old_row ∷ [])) in
    (after : List FailureRow) × (written ≡ (some after, true))
    × (unresolved "b" after
        ≡ not (lists "b" ("a" ∷ []))
          && (has_failed "b" (evidence "b" ∷ []) || unresolved "b" (old_row ∷ [])))
unresolved-record_example = unresolved-record "b" (evidence "b" ∷ []) ("a" ∷ []) (old_row ∷ [])
