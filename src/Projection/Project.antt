-- ===== src/Projection/Project.antt =====
-- indexer/src/indexer.ts, `routeEvent`: an event with the handler that its name selects. The text of
-- an `UnsupportedEventError` is a parameter.
use circleup.Prelude.{String, Option, none, some, or_else}
use circleup.Failures.{HandlerError}
use circleup.Ingest.{Handled, threw, EventIdentity, EventHandler}
use circleup.Events.Route.{
  HandlerName, factory_circle_created, reputation_score_updated, reputation_increment,
  circle_initialized, circle_joined, circle_active, circle_contributed, circle_payout,
  circle_default, circle_round_started, circle_exceptional_settlement, circle_completed,
  circle_cancelled, circle_closed, circle_paused, circle_resumed, Routing, handled_by, route_event,
}
use circleup.Projection.{Tables}
use circleup.Projection.Changes.{SdkEvent}
use circleup.Projection.Handlers.{
  handle_factory_circle_created, handle_circle_initialized, handle_circle_joined,
  handle_circle_active, handle_circle_contributed, handle_circle_payout, handle_circle_default,
  handle_circle_completed, handle_circle_cancelled, handle_circle_closed, handle_circle_paused,
  handle_circle_resumed, handle_circle_round_started, handle_circle_exceptional_settlement,
  handle_reputation_score_updated, handle_reputation_increment,
}

-- `getContractIdStr(event) ?? ""`
abbrev pub circle_of : SdkEvent → String
circle_of ev = or_else ev.decoded.contract_id ""

unfoldable pub handle : HandlerName → SdkEvent → Tables → Handled Tables
handle factory_circle_created ev t = handle_factory_circle_created ev t
handle reputation_score_updated ev t = handle_reputation_score_updated ev t
handle reputation_increment ev t = handle_reputation_increment ev t
handle circle_initialized ev t = handle_circle_initialized (circle_of ev) ev t
handle circle_joined ev t = handle_circle_joined (circle_of ev) ev t
handle circle_active ev t = handle_circle_active (circle_of ev) t
handle circle_contributed ev t = handle_circle_contributed (circle_of ev) ev t
handle circle_payout ev t = handle_circle_payout (circle_of ev) ev t
handle circle_default ev t = handle_circle_default (circle_of ev) ev t
handle circle_round_started ev t = handle_circle_round_started (circle_of ev) ev t
handle circle_exceptional_settlement ev t = handle_circle_exceptional_settlement (circle_of ev) ev t
handle circle_completed ev t = handle_circle_completed (circle_of ev) t
handle circle_cancelled ev t = handle_circle_cancelled (circle_of ev) ev t
handle circle_closed ev t = handle_circle_closed (circle_of ev) ev t
handle circle_paused ev t = handle_circle_paused (circle_of ev) t
handle circle_resumed ev t = handle_circle_resumed (circle_of ev) t

module _ (quarantine_message : Routing → String) where
  abbrev pub unsupported : Routing → HandlerError
  unsupported r = record {
    code = none;
    name = "UnsupportedEventError";
    message = quarantine_message r;
  }

  abbrev pub run_routing : SdkEvent → Routing → Tables → Handled Tables
  run_routing ev (handled_by name) t = handle name ev t
  run_routing ev r t = threw (unsupported r)

  abbrev pub item_for : EventIdentity → SdkEvent → Option Routing → Option (EventHandler Tables)
  item_for id ev none = none
  item_for id ev (some r) = some (record { event = id; handler = run_routing ev r })

  -- `routeEvent(event)`
  unfoldable pub project_item : EventIdentity → SdkEvent → Option (EventHandler Tables)
  unfolding route_event
  project_item id ev = item_for id ev (route_event ev.decoded)
