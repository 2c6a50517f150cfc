-- ===== src/Projection/Ingestion.antt =====
-- indexer/src/indexer.ts, `processEvents` with the handlers: the poller over the tables. Parameters
-- are the decoding of an event by the Stellar SDK, with the time of its transaction, the identity
-- that `ingestEventInTx` reads of it, and the text of a quarantine.
pub mod Laws
use circleup.Prelude.{
  ℕ, String, Bool, true, false, ◌&&◌, Option, none, some, List, map, length, get_elem?, ltb,
  if◌then◌else◌, str_eq,
}
use circleup.Rpc.{RpcEvent}
use circleup.Ingest.{EventIdentity}
use circleup.Events.Parsers.{CircleCreated, parse_circle_created_event}
use circleup.Events.Route.{Routing}
use circleup.Poll.{Sources}
use circleup.Projection.{Tables}
use circleup.Projection.Statements.Values.{topic_text}
use circleup.Projection.Changes.{SdkEvent}
use circleup.Projection.Project.{project_item}

abbrev pub address_of : Option CircleCreated → Option String
address_of none = none
address_of (some parsed) = some parsed.circle_address

-- Step 2: the circle that an event of the factory announces.
unfoldable pub new_circle_of : SdkEvent → Option String
unfolding topic_text parse_circle_created_event
new_circle_of ev =
    let topics = ev.decoded.topics in
    if ltb (length topics) 2
    then none
    else if str_eq (topic_text (get_elem? topics 0)) "factory"
        && str_eq (topic_text (get_elem? topics 1)) "circle_created"
    then address_of (parse_circle_created_event ev.decoded.payload)
    else none

module _ (quarantine_message : Routing → String) (decode : RpcEvent → SdkEvent)
    (identity : RpcEvent → EventIdentity) where
  -- Steps 2, 3 and 5.
  abbrev pub with_handlers : Sources Tables → Sources Tables
  with_handlers sources = record sources {
    new_circle = λ ev. new_circle_of (decode ev);
    route = λ ev. project_item quarantine_message (identity ev) (decode ev);
    known_circles = λ t. map (λ c. c.address) t.circles;
  }
