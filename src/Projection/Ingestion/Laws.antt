-- ===== src/Projection/Ingestion/Laws.antt =====
-- What the poller makes of the circles is a run of the machine over the events it was given.
use circleup.Prelude.{◌≡◌, String, Option, none, some, List, [], ◌∷◌, All}
use circleup.Rpc.{RpcEvent}
use circleup.Ingest.{EventHandler}
use circleup.Ingest.Tables.{Keeps}
use circleup.Events.Route.{HandlerName, Routing, handled_by, route_event}
use circleup.Projection.{Tables}
use circleup.Projection.Changes.{SdkEvent}
use circleup.Projection.View.{CircleView, moved, target_of, move_of, view}

-- An event with the handler that it went to.
pub record Delivery : Type 0 where
  pub name : HandlerName
  pub event : SdkEvent

-- What a list of deliveries, the last one first, makes of a circle.
abbrev pub replayed : List Delivery → String → Option CircleView → Option CircleView
replayed [] a v = v
replayed (d ∷ ds) a v =
    moved (target_of d.name d.event) (move_of d.name d.event) a (replayed ds a v)

module _ (decode : RpcEvent → SdkEvent) where
  -- The event is the decoding of one of the RPC, and is routed to the handler.
  abbrev pub IsRouted : Delivery → Type 0
  IsRouted d =
      (ev : RpcEvent) × (d.event ≡ decode ev)
      × (route_event d.event.decoded ≡ some (handled_by d.name))

  -- From the circles of the first tables the machine goes to those of the second.
  abbrev pub IsReached : Tables → Tables → Type 0
  IsReached before after =
      (ds : List Delivery) × All IsRouted ds
      × ((a : String) → view after a ≡ replayed ds a (view before a))

  module _ (quarantine_message : Routing → String) (before : Tables) where
    abbrev OnItem : Option (EventHandler Tables) → Type 0
    OnItem none = Unit
    OnItem (some item) = Keeps (IsReached before) item
