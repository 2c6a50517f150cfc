-- ===== src/Projection/Tests.antt =====
-- One circle from its creation to a pay-out, and the properties of the projection at its events.
use circleup.Prelude.{ℕ, ◌≡◌, refl, String, true, false, none, some, List, [], ◌∷◌, arith, or_else}
use circleup.Prelude.Text.{decimal}
use circleup.Ingest.{done, EventIdentity, Db, Metrics}
use circleup.Events.{Value, text, number, bigint, array, Values, no_values, more_values}
use circleup.Events.Parsers.{parse_initialized_event}
use circleup.Events.Route.{circle_initialized, circle_payout}
use circleup.Rpc.{RpcEvent}
use circleup.Rpc.Retry.{Answer, answered}
use circleup.Rpc.Paging.{page_of}
use circleup.Poll.{PollConfig, Sources}
use circleup.Poll.Cycle.{LatestLedger}
use circleup.Projection.{Tables, CircleRow, MemberRow, PayoutRow, pending}
use circleup.Projection.Statements.Values.{with_amount, with_integer, number_of, string_of}
use circleup.Projection.Statements.{insert_payout, update_circle, upsert_circle, insert_rotation}
use circleup.Projection.Changes.{SdkEvent, rotation_of}
use circleup.Projection.Handlers.{
  handle_circle_initialized, initialize_circle, handle_circle_payout,
}
use circleup.Projection.Project.{handle}
use circleup.Projection.Redelivery.Later.{at_time, rejoined, handle_twice}
use circleup.Projection.View.{view, moved, target_of, move_of, find_view}
use circleup.Projection.View.Laws.Handlers.{handle_refines}
use circleup.Projection.Ingestion.{with_handlers}

abbrev empty : Tables
empty = record {
  circles = [];
  circle_members = [];
  contributions = [];
  payouts = [];
  defaults = [];
  circle_audit_events = [];
  reputation = [];
}

abbrev list : List Value → Values
list [] = no_values
list (v ∷ vs) = more_values v (list vs)

abbrev event_of : String → List Value → SdkEvent
event_of name values = record {
  decoded = record {
    topics = text "circle" ∷ text name ∷ [];
    payload = array (list values);
    contract_id = some "C";
  };
  ledger = 7;
  tx_hash = "tx";
  now = 1000;
}

abbrev initialized_event : SdkEvent
initialized_event =
    event_of "initialized"
      (text "C" ∷ number 2 ∷ bigint 50 ∷ array (list (text "A" ∷ text "B" ∷ [])) ∷ [])

abbrev payout_event : SdkEvent
payout_event = event_of "payout" (text "C" ∷ text "A" ∷ bigint 100 ∷ number 0 ∷ [])

abbrev circle_at : ℕ → CircleRow
circle_at round = record {
  address = "C";
  creator = "";
  round_amount = "50";
  member_count = 2;
  total_rounds = 2;
  status = pending;
  current_round = round;
  created_ledger = 7;
  paused = false;
  total_released = none;
  close_reason = none;
}

abbrev member : String → ℕ → MemberRow
member address order = record {
  circle_address = "C";
  member_address = address;
  payout_order = order;
  join_order = none;
  collateral = "0";
  defaults = 0;
  joined_at = none;
}

abbrev opened : Tables
opened = record empty {
  circles = circle_at 0 ∷ [];
  circle_members = member "A" 0 ∷ member "B" 1 ∷ [];
}

abbrev payout_row : PayoutRow
payout_row = record {
  circle_address = "C";
  recipient = "A";
  round_index = 0;
  amount = "100";
  tx_hash = "tx";
  ledger = 7;
  is_exceptional = false;
  defaulted_count = none;
}

abbrev paid : Tables
paid = record opened { circles = circle_at 1 ∷ []; payouts = payout_row ∷ [] }

initialized_runs : handle circle_initialized initialized_event empty ≡ done opened
unfolding handle handle_circle_initialized initialize_circle parse_initialized_event upsert_circle
    rotation_of insert_rotation decimal
initialized_runs = refl

payout_runs : handle circle_payout payout_event opened ≡ done paid
unfolding handle handle_circle_payout with_amount with_integer number_of insert_payout update_circle
    string_of decimal
payout_runs = refl

handle_twice_example :
    handle circle_payout (at_time 2000 payout_event) paid
    ≡ done (rejoined circle_payout payout_event 2000 paid)
handle_twice_example =
    handle_twice circle_payout payout_event 2000 opened paid (λ e. ground (arith, e)) payout_runs

handle_refines_example :
    view paid "C"
    ≡ moved
        (target_of circle_payout payout_event)
        (move_of circle_payout payout_event)
        "C"
        (view opened "C")
handle_refines_example = handle_refines circle_payout payout_event opened paid "C" payout_runs

-- The round moves on.
round_after : view paid "C" ≡ some (record { status = pending; current_round = 1; paused = false })
unfolding find_view
round_after = refl

abbrev config : PollConfig
config = record {
  start_ledger = 5;
  events_limit = 100;
  backfill_max_pages = 10;
  backfill_max_events = 50;
  backfill_max_ledgers = 10;
  factory = "CF";
  reputation = "CR";
}

abbrev rpc_event : RpcEvent
rpc_event = record { ledger = 7; id = some "a"; paging_token = none }

abbrev identity_of : RpcEvent → EventIdentity
identity_of ev = record {
  event_key = or_else ev.id "";
  contract_id = some "C";
  ledger = ev.ledger;
  tx_hash = some "tx";
  event_type = "circle:initialized";
  event_index = some 1;
  failure_id = or_else ev.id "";
}

abbrev sources : Sources Tables
sources = record {
  answer = λ ids n query.
      page_of (record { latest_ledger = some 90; events = rpc_event ∷ []; cursor = none });
  stop_fetch = λ ids n. false;
  stop_ledger = λ l. false;
  stop_trailing = false;
  new_circle = λ ev. none;
  route = λ ev. none;
  known_circles = λ t. [];
  id_before = λ a b. true;
}

abbrev db : Db Tables
db = record {
  tables = empty;
  ingested_events = [];
  event_failures = some [];
  last_ledger = 0;
  checkpoints = [];
}

abbrev no_metrics : Metrics
no_metrics = record { processed = 0; failed = 0; skipped = 0; retried = 0 }

abbrev head : ℕ → Answer LatestLedger
head n = answered (record { id = some "h"; sequence = 12 })

abbrev running : Sources Tables
running = with_handlers (λ r. "quarantined") (λ ev. initialized_event) identity_of sources
