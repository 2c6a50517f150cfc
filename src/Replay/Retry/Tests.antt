-- ===== src/Replay/Retry/Tests.antt =====
-- indexer/src/db/replay.ts, `prepareFailedEventRetry`, with two open failures and one that is resolved.
use circleup.Prelude.{ℕ, ◌≡◌, refl, ◌+◌, Bool, true, false, none, some, List, [], ◌∷◌, arith}
use circleup.Prelude.Text.{decimal}
use circleup.Failures.{FailureRow, permanent}
use circleup.Ingest.{Db}
use circleup.Poll.{PollConfig, Sources}
use circleup.Poll.Cycle.{resume_at}
use circleup.Replay.Retry.{
  FailedEventRetryOptions, confirms, retry_token, oldest_open, rewound, prepare_failed_event_retry,
}
use circleup.Replay.Retry.Laws.{AllFrom, prepare_failed_event_retry_reaches}
use circleup.Rpc.Paging.{page_of}

abbrev failure_at : ℕ → Bool → FailureRow
failure_at ledger resolved = record {
  evidence = record {
    event_id = decimal ledger;
    ledger = ledger;
    tx_hash = none;
    contract_id = none;
    event_type = "circle:joined";
    error_class = permanent;
    error_name = "Error";
  };
  attempts = 1;
  resolved = resolved;
  acknowledged = false;
}

abbrev failures : List FailureRow
failures = failure_at 9 false ∷ failure_at 5 true ∷ failure_at 7 false ∷ []

abbrev db : Db ℕ
db = record {
  tables = 3;
  ingested_events = [];
  event_failures = some failures;
  last_ledger = 12;
  checkpoints = [];
}

abbrev options : FailedEventRetryOptions
options = record { from_ledger = none; confirm = some "replay-retry-failed-from-7" }

retry_runs : (prepare_failed_event_retry options db).1 ≡ rewound 7 2 12 6
unfolding prepare_failed_event_retry retry_token
retry_runs = refl

token_agrees : confirms 7 options.confirm ≡ true
unfolding retry_token
token_agrees = refl

oldest_of_two : oldest_open failures ≡ some 7
unfolding oldest_open
oldest_of_two = refl

abbrev config : PollConfig
config = record {
  start_ledger = 5;
  events_limit = 100;
  backfill_max_pages = 10;
  backfill_max_events = 50;
  backfill_max_ledgers = 10;
  factory = "CF";
  reputation = "CR";
}

abbrev sources : Sources ℕ
sources = record {
  answer = λ ids n query. page_of (record { latest_ledger = none; events = []; cursor = none });
  stop_fetch = λ ids n. false;
  stop_ledger = λ l. false;
  stop_trailing = false;
  new_circle = λ ev. none;
  route = λ ev. none;
  known_circles = λ n. [];
  id_before = λ a b. true;
}

prepare_failed_event_retry_reaches_example :
    (let (db', outcome) = prepare_failed_event_retry options db in
      (resume_at config sources db' + 1 ≡ 7) × AllFrom 7 failures)
prepare_failed_event_retry_reaches_example =
    prepare_failed_event_retry_reaches config sources options.confirm db failures 7 refl
      oldest_of_two token_agrees (omega arith) (omega arith)
