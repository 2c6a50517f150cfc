-- ===== src/Ingest/Tests.antt =====
-- indexer/src/indexer.ts, `processLedger`: a ledger with a good event and a poison event, over tables
-- that are a counter.
use circleup.Prelude.{ℕ, suc, String, ◌≡◌, refl, none, some, List, [], ◌∷◌, All, arith}
use mathlib.Core.Path.{subst}
use text.Mathlib.TextEquality.{eq_iff}
use circleup.Failures.{HandlerError, permanent, classify_handler_error}
use circleup.Ingest.{
  is_ingested, conflicts, EventIdentity, Handled, done, threw, EventHandler, Db, Metrics, returned,
  process_ledger,
}
use circleup.Ingest.Commit.{Settles, Steady, process_ledger-Settles, process_ledger_commits}
use circleup.Ingest.NoLoss.{Distinct, OnRecord, process_ledger_no_loss}
use circleup.Ingest.Replay.{process_ledger_again}

abbrev identity : String → EventIdentity
identity id = record {
  event_key = id;
  contract_id = some "CA";
  ledger = 7;
  tx_hash = some id;
  event_type = "circle/joined";
  event_index = some 0;
  failure_id = id;
}

abbrev malformed : HandlerError
malformed = record { code = none; name = "Error"; message = "circle/joined: malformed" }

abbrev good : EventHandler ℕ
good = record { event = identity "a"; handler = λ n. done (suc n) }

abbrev poison : EventHandler ℕ
poison = record { event = identity "b"; handler = λ n. threw malformed }

abbrev both : List (EventHandler ℕ)
both = good ∷ poison ∷ []

abbrev fresh_db : Db ℕ
fresh_db = record {
  tables = 0;
  ingested_events = [];
  event_failures = some [];
  last_ledger = 6;
  checkpoints = [];
}

abbrev no_metrics : Metrics
no_metrics = record { processed = 0; failed = 0; skipped = 0; retried = 0 }

process_ledger-Settles_example :
    let (db', m', r) = process_ledger 7 both fresh_db no_metrics in
    Settles 7 both fresh_db no_metrics db' m' r
process_ledger-Settles_example = process_ledger-Settles 7 both fresh_db no_metrics

both_returned : (process_ledger 7 both fresh_db no_metrics).2 ≡ returned 1 1
unfolding process_ledger is_ingested conflicts classify_handler_error
both_returned = refl

good_returned : (process_ledger 7 (good ∷ []) fresh_db no_metrics).2 ≡ returned 1 0
unfolding process_ledger is_ingested
good_returned = refl

malformed_is_permanent : classify_handler_error malformed ≡ permanent
unfolding classify_handler_error
malformed_is_permanent = refl

-- The error that a handler threw, if any, is permanent.
abbrev ThrewPermanent : Handled ℕ → Type 0
ThrewPermanent (done n) = Unit
ThrewPermanent (threw err) = classify_handler_error err ≡ permanent

both-Steady : Steady both
both-Steady =
    (λ n err e. ground (arith, e), (λ n err e. subst ThrewPermanent e malformed_is_permanent, tt))

process_ledger_commits_example :
    (processed : ℕ) × (failed : ℕ) × ((process_ledger 7 both fresh_db no_metrics).2
      ≡ returned processed failed)
process_ledger_commits_example = process_ledger_commits 7 both fresh_db no_metrics both-Steady

both-Distinct : Distinct both
both-Distinct = ((λ e. ground (arith, (eq_iff "b" "a").1 e), tt), (tt, tt))

process_ledger_no_loss_example : All (OnRecord (process_ledger 7 both fresh_db no_metrics).0) both
process_ledger_no_loss_example =
    process_ledger_no_loss 7 both fresh_db no_metrics [] 1 1 both-Distinct refl both_returned

process_ledger_again_example :
    let (db', m', r) = process_ledger 7 (good ∷ []) fresh_db no_metrics in
    let (db'', m'', r') = process_ledger 7 (good ∷ []) db' m' in
    (r' ≡ returned 0 0)
    × (db''.tables ≡ db'.tables)
    × (db''.ingested_events ≡ db'.ingested_events)
    × (db''.event_failures ≡ db'.event_failures)
process_ledger_again_example =
    process_ledger_again 7 (good ∷ []) fresh_db no_metrics 1 good_returned
