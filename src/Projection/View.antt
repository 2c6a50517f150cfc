-- ===== src/Projection/View.antt =====
-- What the indexer is to know of a circle: its status, its round and whether it is paused, as a
-- machine that each event moves. The tables are one way to hold it.
pub mod Laws
use circleup.Prelude.{
  ℕ, ◌+◌, String, Bool, true, false, Option, none, some, List, [], ◌∷◌, if◌then◌else◌, str_eq,
}
use circleup.Events.Parsers.{parse_circle_created_event}
use circleup.Events.Route.{
  HandlerName, factory_circle_created, reputation_score_updated, reputation_increment,
  circle_initialized, circle_joined, circle_active, circle_contributed, circle_payout,
  circle_default, circle_round_started, circle_exceptional_settlement, circle_completed,
  circle_cancelled, circle_closed, circle_paused, circle_resumed,
}
use circleup.Projection.{
  CircleStatus, pending, active, completed, cancelled, closed, CircleRow, Tables,
}
use circleup.Projection.Statements.Values.{number_of}
use circleup.Projection.Changes.{SdkEvent, field}
use circleup.Projection.Project.{circle_of}
use circleup.Projection.Ingestion.{address_of}

pub record CircleView : Type 0 where
  pub status : CircleStatus
  pub current_round : ℕ
  pub paused : Bool

pub data Move : Type 0 where
  opens stays : Move
  becomes : CircleStatus → Move
  goes_to : ℕ → Move
  pauses : Bool → Move

-- A round that the payload does not have moves nothing.
abbrev pub goes_on : (ℕ → ℕ) → Option ℕ → Move
goes_on f none = stays
goes_on f (some n) = goes_to (f n)

abbrev pub move_of : HandlerName → SdkEvent → Move
move_of factory_circle_created ev = opens
move_of circle_initialized ev = opens
move_of circle_active ev = becomes active
move_of circle_completed ev = becomes completed
move_of circle_cancelled ev = becomes cancelled
move_of circle_closed ev = becomes closed
move_of circle_payout ev = goes_on (λ n. n + 1) (number_of (field ev 3))
move_of circle_round_started ev = goes_on (λ n. n) (number_of (field ev 1))
move_of circle_paused ev = pauses true
move_of circle_resumed ev = pauses false
move_of circle_joined ev = stays
move_of circle_contributed ev = stays
move_of circle_default ev = stays
move_of circle_exceptional_settlement ev = stays
move_of reputation_score_updated ev = stays
move_of reputation_increment ev = stays

-- The circle that an event moves.
abbrev pub target_of : HandlerName → SdkEvent → Option String
target_of factory_circle_created ev = address_of (parse_circle_created_event ev.decoded.payload)
target_of _ ev = some (circle_of ev)

-- A circle that is not known is only opened.
abbrev pub move : Move → Option CircleView → Option CircleView
move opens none = some (record { status = pending; current_round = 0; paused = false })
move opens (some v) = some v
move (becomes s) (some v) = some (record v { status = s })
move (goes_to n) (some v) = some (record v { current_round = n })
move (pauses b) (some v) = some (record v { paused = b })
move stays (some v) = some v
move _ none = none

abbrev pub moved : Option String → Move → String → Option CircleView → Option CircleView
moved none m a v = v
moved (some target) m a v = if str_eq target a then move m v else v

abbrev pub view_of : CircleRow → CircleView
view_of c = record { status = c.status; current_round = c.current_round; paused = c.paused }

unfoldable pub find_view : String → List CircleRow → Option CircleView
find_view a [] = none
find_view a (c ∷ cs) = if str_eq c.address a then some (view_of c) else find_view a cs

-- What the tables say of the circle at an address.
abbrev pub view : Tables → String → Option CircleView
view t a = find_view a t.circles
