-- ===== src/Poll/Tests.antt =====
-- `runPollCycle` on a chain with two events of one circle, over tables that are a counter.
use circleup.Prelude.{
  ℕ, suc, String, ◌≡◌, refl, true, false, Option, none, some, List, [], ◌∷◌, arith,
}
use circleup.Rpc.{RpcEvent}
use circleup.Rpc.Paging.{EventPage, page_of}
use circleup.Rpc.Retry.{Answer, answered, with_rpc_retry}
use circleup.Ingest.{is_ingested, conflicts, done, EventHandler, Db, Metrics}
use circleup.Poll.{PollConfig, Sources}
use circleup.Poll.Ledgers.{Polled, process_events}
use circleup.Poll.Ledgers.Laws.{Advances, process_events_cursor}
use circleup.Poll.Cycle.{LatestLedger, run_poll_cycle}
use circleup.Poll.Cycle.Laws.{OnLatest, run_poll_cycle_ends}

abbrev config : PollConfig
config = record {
  start_ledger = 5;
  events_limit = 100;
  backfill_max_pages = 10;
  backfill_max_events = 50;
  backfill_max_ledgers = 10;
  factory = "CF";
  reputation = "CR";
}

abbrev event_at : ℕ → String → RpcEvent
event_at ledger id = record { ledger = ledger; id = some id; paging_token = none }

abbrev page_with : List RpcEvent → EventPage
page_with events = record { latest_ledger = some 90; events = events; cursor = none }

abbrev count_up : RpcEvent → EventHandler ℕ
count_up ev = record {
  event = record {
    event_key = "k";
    contract_id = none;
    ledger = ev.ledger;
    tx_hash = some "t";
    event_type = "circle/paused";
    event_index = some ev.ledger;
    failure_id = "k";
  };
  handler = λ n. done (suc n);
}

abbrev sources : Sources ℕ
sources = record {
  answer = λ ids n query. page_of (page_with (event_at 7 "a" ∷ event_at 9 "b" ∷ []));
  stop_fetch = λ ids n. false;
  stop_ledger = λ l. false;
  stop_trailing = false;
  new_circle = λ ev. none;
  route = λ ev. some (count_up ev);
  known_circles = λ n. [];
  id_before = λ a b. true;
}

abbrev empty_db : Db ℕ
empty_db = record {
  tables = 0;
  ingested_events = [];
  event_failures = some [];
  last_ledger = 0;
  checkpoints = [];
}

abbrev no_metrics : Metrics
no_metrics = record { processed = 0; failed = 0; skipped = 0; retried = 0 }

process_events_cursor_example :
    Advances 6 15 empty_db (process_events config sources 6 15 empty_db no_metrics)
process_events_cursor_example =
    process_events_cursor config sources 6 15 empty_db no_metrics (omega arith)

abbrev head : ℕ → Answer LatestLedger
head n = answered (record { id = some "h"; sequence = 12 })

-- The cursor after a cycle.
abbrev cursor_of : Option (Polled ℕ) → Option ℕ
cursor_of none = none
cursor_of (some (db, m, r)) = some db.last_ledger

cycle_cursor :
    cursor_of (run_poll_cycle config sources head (λ a b. 0) 500 3 empty_db no_metrics) ≡ some 12
unfolding run_poll_cycle is_ingested conflicts
cycle_cursor = refl

run_poll_cycle_ends_example :
    (r : Polled ℕ) × (run_poll_cycle config sources head (λ a b. 0) 500 3 empty_db no_metrics
      ≡ some r)
    × OnLatest config sources empty_db no_metrics
        (with_rpc_retry head (λ a b. 0) 500 "getLatestLedger" 3).outcome
        r
run_poll_cycle_ends_example =
    run_poll_cycle_ends config sources empty_db head (λ a b. 0) 500 3 no_metrics (omega arith)
