-- ===== src/Projection/View/Laws/Handlers.antt =====
-- Every handler makes of the circles what the machine says.
use mathlib.Core.Path.{subst}
use circleup.Projection.Statements.Values.{number_of}
use circleup.Prelude.Text.{decimal}
use circleup.Prelude.{
  true, false, ◌+◌, ℕ, refl, String, Option, none, some, str_eq, Bool-cases, inl, inr, ◌≡◌, arith,
}
use circleup.Failures.{HandlerError}
use circleup.Ingest.{Handled, done, threw}
use circleup.Events.{Value}
use circleup.Events.Parsers.{Initialized, CircleCreated}
use circleup.Events.Route.{
  HandlerName, factory_circle_created, reputation_score_updated, reputation_increment,
  circle_initialized, circle_joined, circle_active, circle_contributed, circle_payout,
  circle_default, circle_round_started, circle_exceptional_settlement, circle_completed,
  circle_cancelled, circle_closed, circle_paused, circle_resumed,
}
use circleup.Projection.{active, completed, CircleRow, cancelled, Tables, closed}
use circleup.Projection.Sql.{◌then_do◌}
use circleup.Projection.Statements.{insert_payout, upsert_circle, update_circle}
use circleup.Projection.Changes.{
  SdkEvent, fill_creator, fill_terms, with_status, at_round, close_with, field,
}
use circleup.Projection.Handlers.{
  create_circle, initialize_circle, handle_factory_circle_created, handle_circle_initialized,
  handle_circle_joined, handle_circle_active, handle_circle_payout, handle_circle_completed,
  handle_circle_cancelled, handle_circle_closed, handle_circle_paused, handle_circle_resumed,
  handle_circle_round_started, start_round, handle_circle_exceptional_settlement,
  handle_reputation_increment,
}
use circleup.Projection.Project.{handle, circle_of}
use circleup.Projection.Rules.{
  in_integer-rule, with_integer-rule, with_amount-rule, with_amount_or_zero-rule,
  with_expected-rule,
}
use circleup.Projection.Outcome.{OnDone, OnDone-then_do}
use circleup.Projection.Redelivery.Statements.{insert_audit-circles}
use circleup.Projection.View.{
  Move, opens, becomes, goes_to, goes_on, pauses, moved, move_of, target_of, view, view_of,
  find_view,
}
use circleup.Projection.View.Laws.{
  Refines, update_circle-Refines, upsert_circle-Refines, LeavesCircles, LeavesCircles-Refines,
  then_do-Refines,
}
use circleup.Projection.Redelivery.Handlers.{rotation_of-circles}
use circleup.Projection.Ingestion.{address_of}
use circleup.Projection.View.Laws.Circles.{
  insert_payout-circles, join_circle-circles, contributed-circles, default-circles,
  settle_round-circles, score_updated-circles, put_score-circles,
}

fails : (target : Option String) (m : Move) (e : HandlerError) → Refines target m (λ t. threw e)
fails target m e t = tt

create_circle-Refines :
    (ev : SdkEvent) (o : Option CircleCreated) → Refines (address_of o) opens (create_circle ev o)
unfolding create_circle
create_circle-Refines ev none = λ t. tt
create_circle-Refines ev (some parsed) =
    upsert_circle-Refines (fill_creator parsed.creator) opens _ (λ c. ground arith) (λ c. unseen c)
      refl
  where
    unseen : (c : CircleRow) → some (view_of (fill_creator parsed.creator c)) ≡ some (view_of c)
    unseen c = elim (Bool-cases (str_eq c.creator "")) [ inl e ↦ rw e refl | inr e ↦ rw e refl ]

initialize_circle-Refines :
    (circle : String) (ledger : ℕ) (o : Option Initialized)
    → Refines (some circle) opens (initialize_circle circle ledger o)
unfolding initialize_circle
initialize_circle-Refines circle ledger none = λ t. tt
initialize_circle-Refines circle ledger (some parsed) =
    then_do-Refines (some circle) opens (upsert_circle _ _) _
      (upsert_circle-Refines (fill_terms (decimal parsed.round_amount) parsed.member_count) opens _
        (λ c. refl) (λ c. refl) refl)
      (λ Q. rotation_of-circles Q circle parsed.members)

-- A statement that leaves the circles alone before one that moves a circle.
leaves-then_do :
    (target : Option String) (m : Move) (first next : Tables → Handled Tables)
    → LeavesCircles first
    → Refines target m next
    → Refines target m (λ t. first t then_do next)
leaves-then_do target m first next leaves h t =
    OnDone-then_do (λ t1. t1.circles ≡ t.circles)
      (λ t2. (a : String) → view t2 a ≡ moved target m a (view t a)) (first t) next
      (leaves (λ cs. cs ≡ t.circles) t refl)
      (λ t1 same.
        subst
          (λ cs.
            OnDone (λ t2. (a : String) → view t2 a ≡ moved target m a (find_view a cs)) (next t1))
          same (h t1))

payout-Refines :
    (circle : String) (ev : SdkEvent)
    → Refines
        (some circle)
        (goes_on (λ n. n + 1) (number_of (field ev 3)))
        (handle_circle_payout circle ev)
unfolding handle_circle_payout
payout-Refines circle ev =
    let m = goes_on (λ n. n + 1) (number_of (field ev 3)) in
    with_amount-rule (Refines (some circle) m) (fails (some circle) m) _ _ (λ pot.
      with_integer-rule (Refines (some circle) m) (fails (some circle) m) _ _ (λ n e.
        leaves-then_do (some circle) m (insert_payout _) _ (insert_payout-circles _) (
          in_integer-rule (Refines (some circle) m) (fails (some circle) m) _ _ (
            rw e (
              update_circle-Refines circle (at_round (n + 1)) (goes_to (n + 1)) (λ c. refl)
                (λ c. refl) refl)))))

start_round-Refines :
    (circle : String) (o : Option Value)
    → Refines (some circle) (goes_on (λ n. n) (number_of o)) (start_round circle o)
unfolding start_round
start_round-Refines circle none = λ t. tt
start_round-Refines circle (some v) =
    let m = goes_on (λ n. n) (number_of (some v)) in
    with_integer-rule (Refines (some circle) m) (fails (some circle) m) _ _ (λ n e.
      rw e (update_circle-Refines circle (at_round n) (goes_to n) (λ c. refl) (λ c. refl) refl))

cancelled-Refines :
    (circle : String) (ev : SdkEvent)
    → Refines (some circle) (becomes cancelled) (handle_circle_cancelled circle ev)
unfolding handle_circle_cancelled
cancelled-Refines circle ev =
    then_do-Refines (some circle) (becomes cancelled) (update_circle circle _) _
      (update_circle-Refines circle (with_status cancelled) (becomes cancelled) (λ c. refl)
        (λ c. refl) refl)
      (λ Q. insert_audit-circles Q _)

closed-Refines :
    (circle : String) (ev : SdkEvent)
    → Refines (some circle) (becomes closed) (handle_circle_closed circle ev)
unfolding handle_circle_closed
closed-Refines circle ev =
    let Φ = Refines (some circle) (becomes closed) in
    with_amount_or_zero-rule Φ (fails (some circle) (becomes closed)) _ _ (λ released.
      with_expected-rule Φ (fails (some circle) (becomes closed)) _ _ (λ expected.
        then_do-Refines (some circle) (becomes closed) (update_circle circle _) _
          (update_circle-Refines circle (close_with released _) (becomes closed) (λ c. refl)
            (λ c. refl) refl)
          (λ Q. insert_audit-circles Q _)))

handle-Refines :
    (name : HandlerName) (ev : SdkEvent)
    → Refines (target_of name ev) (move_of name ev) (handle name ev)
unfolding handle handle_factory_circle_created handle_circle_initialized handle_circle_joined
    handle_circle_active handle_circle_completed handle_circle_paused handle_circle_resumed
    handle_circle_round_started handle_circle_exceptional_settlement handle_reputation_increment
handle-Refines factory_circle_created ev = create_circle-Refines ev _
handle-Refines reputation_score_updated ev =
    LeavesCircles-Refines (some (circle_of ev)) _ (score_updated-circles ev)
handle-Refines reputation_increment ev =
    LeavesCircles-Refines (some (circle_of ev)) _ (put_score-circles _ _)
handle-Refines circle_initialized ev = initialize_circle-Refines _ _ _
handle-Refines circle_joined ev =
    LeavesCircles-Refines (some (circle_of ev)) _ (join_circle-circles _ _ _)
handle-Refines circle_active ev =
    update_circle-Refines _ _ (becomes active) (λ c. refl) (λ c. refl) refl
handle-Refines circle_contributed ev =
    LeavesCircles-Refines (some (circle_of ev)) _ (contributed-circles _ ev)
handle-Refines circle_payout ev = payout-Refines _ ev
handle-Refines circle_default ev =
    LeavesCircles-Refines (some (circle_of ev)) _ (default-circles _ ev)
handle-Refines circle_round_started ev = start_round-Refines _ _
handle-Refines circle_exceptional_settlement ev =
    LeavesCircles-Refines (some (circle_of ev)) _ (settle_round-circles _ ev _)
handle-Refines circle_completed ev =
    update_circle-Refines _ _ (becomes completed) (λ c. refl) (λ c. refl) refl
handle-Refines circle_cancelled ev = cancelled-Refines _ ev
handle-Refines circle_closed ev = closed-Refines _ ev
handle-Refines circle_paused ev =
    update_circle-Refines _ _ (pauses true) (λ c. refl) (λ c. refl) refl
handle-Refines circle_resumed ev =
    update_circle-Refines _ _ (pauses false) (λ c. refl) (λ c. refl) refl

-- The tables refine the machine of status, round and pause: a handler that does not throw makes of
-- every circle's view what the event's move makes of it, for the circle of the event, and leaves
-- the view of every other circle as it was.
pub handle_refines :
    (name : HandlerName) (ev : SdkEvent) (t t' : Tables) (a : String)
    → handle name ev t ≡ done t'
    → view t' a ≡ moved (target_of name ev) (move_of name ev) a (view t a)
handle_refines name ev t t' a e =
    subst
      (OnDone
        (λ t'. (a : String) → view t' a ≡ moved (target_of name ev) (move_of name ev) a (view t a)))
      e (handle-Refines name ev t) a
