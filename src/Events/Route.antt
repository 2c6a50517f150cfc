-- ===== src/Events/Route.antt =====
-- indexer/src/indexer.ts, `routeEvent`: the handler of an event, by its name. The handlers that write
-- to the database are not modelled.
pub mod Laws
use circleup.Prelude.{String, Bool, true, false, Option, none, some, if◌then◌else◌, str_eq}
use circleup.Events.Registry.{
  EventFamily, factory_family, circle_family, reputation_family, EventSchema,
}
use circleup.Events.Classify.{
  ClassifiableEvent, EventClassification, is_projected, is_ignored, unknown, incompatible, Reason,
  classify_event,
}

pub data HandlerName : Type 0 where
  factory_circle_created reputation_score_updated reputation_increment : HandlerName
  circle_initialized circle_joined circle_active circle_contributed circle_payout : HandlerName
  circle_default circle_round_started circle_exceptional_settlement circle_completed : HandlerName
  circle_cancelled circle_closed circle_paused circle_resumed : HandlerName

pub data Routing : Type 0 where
  handled_by : HandlerName → Routing
  quarantined_unknown : Reason → Routing
  quarantined_incompatible : EventSchema → Reason → Routing
  quarantined_no_handler : EventSchema → Routing

-- The `switch` on the name of a circle's event.
unfoldable pub circle_handler : String → Option HandlerName
circle_handler name =
    if str_eq name "initialized"
    then some circle_initialized
    else if str_eq name "joined"
    then some circle_joined
    else if str_eq name "active"
    then some circle_active
    else if str_eq name "contributed"
    then some circle_contributed
    else if str_eq name "payout"
    then some circle_payout
    else if str_eq name "default"
    then some circle_default
    else if str_eq name "round_started"
    then some circle_round_started
    else if str_eq name "exceptional_settlement"
    then some circle_exceptional_settlement
    else if str_eq name "completed"
    then some circle_completed
    else if str_eq name "cancelled"
    then some circle_cancelled
    else if str_eq name "closed"
    then some circle_closed
    else if str_eq name "paused"
    then some circle_paused
    else if str_eq name "resumed"
    then some circle_resumed
    else none

unfoldable pub handler_of : EventFamily → String → Option HandlerName
unfolding circle_handler
handler_of factory_family name =
    if str_eq name "circle_created" then some factory_circle_created else none
handler_of reputation_family name =
    if str_eq name "score_updated"
    then some reputation_score_updated
    else if str_eq name "increment"
    then some reputation_increment
    else none
handler_of circle_family name = circle_handler name

abbrev pub or_quarantine : EventSchema → Option HandlerName → Routing
or_quarantine schema none = quarantined_no_handler schema
or_quarantine schema (some h) = handled_by h

-- `none` is an event that is not projected.
unfoldable pub route_classified : EventClassification → Option Routing
unfolding handler_of
route_classified (is_ignored schema v) = none
route_classified (unknown reason) = some (quarantined_unknown reason)
route_classified (incompatible schema reason) = some (quarantined_incompatible schema reason)
route_classified (is_projected schema v) =
    some (or_quarantine schema (handler_of schema.family schema.name))

unfoldable pub route_event : ClassifiableEvent → Option Routing
unfolding route_classified classify_event
route_event ev = route_classified (classify_event ev)
