-- ===== src/Projection/Redelivery/Handlers.antt =====
-- Every handler a second time, on what it left.
use circleup.Projection.Statements.Values.{in_integer, string_or_null}
use circleup.Prelude.Text.{decimal}
use circleup.Prelude.{
  ap, ◌+◌, or_else, leb, sym, ◌≢◌, ℕ, refl, String, Option, none, some, str_eq, List, Bool-cases,
  inl, inr, ◌≡◌, arith,
}
use circleup.Failures.{HandlerError}
use circleup.Ingest.{Handled, threw}
use circleup.Events.{Value}
use circleup.Events.Parsers.{Initialized, Joined, CircleCreated}
use circleup.Events.Route.{
  HandlerName, factory_circle_created, reputation_score_updated, reputation_increment,
  circle_initialized, circle_joined, circle_active, circle_contributed, circle_payout,
  circle_default, circle_round_started, circle_exceptional_settlement, circle_completed,
  circle_cancelled, circle_closed, circle_paused, circle_resumed,
}
use circleup.Projection.{CircleRow, cancelled, PayoutRow, max_integer, same_circle, Tables}
use circleup.Projection.Sql.{◌then_do◌}
use circleup.Projection.Statements.{insert_payout, upsert_circle, update_circle}
use circleup.Projection.Changes.{
  SdkEvent, fill_creator, rotation_of, fill_terms, with_status, at_round, close_with, new_circle,
  field,
}
use circleup.Projection.Handlers.{
  create_circle, initialize_circle, join_circle, put_score, handle_factory_circle_created,
  handle_circle_initialized, handle_circle_joined, handle_circle_active, handle_circle_contributed,
  handle_circle_payout, handle_circle_completed, handle_circle_cancelled, handle_circle_closed,
  handle_circle_paused, handle_circle_resumed, handle_circle_round_started, start_round,
  settle_round, handle_circle_exceptional_settlement, handle_reputation_score_updated,
  handle_reputation_increment,
}
use circleup.Projection.Project.{handle}
use circleup.Projection.Rules.{
  in_integer-rule, with_integer-rule, with_amount-rule, with_amount_or_zero-rule,
  with_expected-rule, with_recipient-rule,
}
use circleup.Projection.Sql.{upsert, update_where}
use circleup.Projection.Outcome.{OnDone}
use circleup.Projection.Redelivery.{Stable, Mark, Mark-Stable, Stable-Mark, then_do-Mark}
use circleup.Projection.Redelivery.Statements.{
  insert_contribution-Mark, insert_payout-Mark, insert_audit-Mark, insert_rotation-Mark,
  insert_rotation-circles, insert_audit-circles, upsert_payout-Mark, upsert_score-Stable,
  mark_joined-Stable, upsert_circle-Mark, update_circle-Mark,
}

fails : (e : HandlerError) → Stable (λ t. threw e)
fails e t = tt

-- Two statements, of which the first is on circles and the second leaves the circles alone.
then_do-Stable :
    (first next : Tables → Handled Tables) (Q : List CircleRow → Type 0) (R : Tables → Type 0)
    → Mark first (λ t. Q t.circles)
    → Mark next R
    → ((t : Tables) → Q t.circles → OnDone (λ t'. Q t'.circles) (next t))
    → Stable (λ t. first t then_do next)
then_do-Stable first next Q R m n keeps =
    Mark-Stable _ (λ t. Q t.circles × R t) (then_do-Mark first next (λ t. Q t.circles) R m n keeps)

update_circle-Stable :
    (a : String) (f : CircleRow → CircleRow)
    → ((c : CircleRow) → f (f c) ≡ f c)
    → ((c : CircleRow) → (f c).address ≡ c.address)
    → Stable (update_circle a f)
update_circle-Stable a f twice keeps = Mark-Stable _ _ (update_circle-Mark a f twice keeps)

fill_creator_twice :
    (creator : String) (c : CircleRow)
    → fill_creator creator (fill_creator creator c) ≡ fill_creator creator c
fill_creator_twice creator c = elim (Bool-cases (str_eq c.creator "")) [
  | inr e ↦ rw (e, e) refl
  | inl e ↦ elim (Bool-cases (str_eq creator "")) [
    | inl k ↦ rw (e, k) refl
    | inr k ↦ rw (e, k) refl
  ]
]

fill_creator_own :
    (creator : String) (c : CircleRow) → c.creator ≡ creator → fill_creator creator c ≡ c
fill_creator_own creator c h = elim (Bool-cases (str_eq c.creator "")) [
  | inl e ↦ rw e (ap (λ x. record c { creator = x }) (sym h))
  | inr e ↦ rw e refl
]

create_circle-Stable : (ev : SdkEvent) (o : Option CircleCreated) → Stable (create_circle ev o)
unfolding create_circle
create_circle-Stable ev none = λ t. tt
create_circle-Stable ev (some parsed) = Mark-Stable _ _ (
    upsert_circle-Mark (fill_creator parsed.creator) _ (fill_creator_own parsed.creator _ refl)
      (fill_creator_twice parsed.creator) (λ c. ground arith))

rotation_of-Stable :
    (circle : String) (members : Option (List String)) → Stable (rotation_of circle members)
unfolding rotation_of
rotation_of-Stable circle none = λ t. refl
rotation_of-Stable circle (some ms) = Mark-Stable _ _ (insert_rotation-Mark circle ms 0)

pub rotation_of-circles :
    (Q : List CircleRow → Type 0) (circle : String) (members : Option (List String)) (t : Tables)
    → Q t.circles
    → OnDone (λ t'. Q t'.circles) (rotation_of circle members t)
unfolding rotation_of
rotation_of-circles Q circle none t q = q
rotation_of-circles Q circle (some ms) t q = insert_rotation-circles Q circle ms 0 t q

initialize_circle-Stable :
    (circle : String) (ledger : ℕ) (o : Option Initialized)
    → Stable (initialize_circle circle ledger o)
unfolding initialize_circle
initialize_circle-Stable circle ledger none = λ t. tt
initialize_circle-Stable circle ledger (some parsed) =
    let f = fill_terms (decimal parsed.round_amount) parsed.member_count in
    let row = new_circle circle "" (decimal parsed.round_amount) parsed.member_count ledger in
    then_do-Stable (upsert_circle f row) (rotation_of circle parsed.members)
      (λ cs. upsert same_circle f row cs ≡ cs) _
      (upsert_circle-Mark f row refl (λ c. refl) (λ c. refl))
      (Stable-Mark _ (rotation_of-Stable circle parsed.members))
      (rotation_of-circles _ circle parsed.members)

join_circle-Stable :
    (now : ℕ) (circle : String) (o : Option Joined) → Stable (join_circle now circle o)
unfolding join_circle
join_circle-Stable now circle none = λ t. tt
join_circle-Stable now circle (some parsed) =
    in_integer-rule Stable fails _ _ (mark_joined-Stable _ now circle _ _ _)

contributed-Stable :
    (circle : String) (ev : SdkEvent) → Stable (handle_circle_contributed circle ev)
unfolding handle_circle_contributed
contributed-Stable circle ev = with_integer-rule Stable fails _ _ (λ n e.
    with_amount_or_zero-rule Stable fails _ _
      (λ amount. Mark-Stable _ _ (insert_contribution-Mark _)))

-- The change of the circle leaves the payouts alone.
at_round-payouts :
    (Q : List PayoutRow → Type 0) (circle : String) (n : ℕ) (t : Tables)
    → Q t.payouts
    → OnDone (λ t'. Q t'.payouts) (in_integer n (λ m. update_circle circle (at_round m) t))
unfolding in_integer update_circle
at_round-payouts Q circle n t q = elim (Bool-cases (leb n max_integer)) [
  | inl e ↦ rw e q
  | inr e ↦ rw e tt
]

payout-Stable : (circle : String) (ev : SdkEvent) → Stable (handle_circle_payout circle ev)
unfolding handle_circle_payout
payout-Stable circle ev = with_amount-rule Stable fails _ _ (λ pot.
    with_integer-rule Stable fails _ _ (λ n e. Mark-Stable _ _ (
      then_do-Mark (insert_payout _) _ _ _ (insert_payout-Mark _)
        (Stable-Mark _ (
          in_integer-rule Stable fails _ _ (update_circle-Stable circle _ (λ c. refl) (λ c. refl))))
        (at_round-payouts _ circle (n + 1)))))

cancelled-Stable : (circle : String) (ev : SdkEvent) → Stable (handle_circle_cancelled circle ev)
unfolding handle_circle_cancelled
cancelled-Stable circle ev =
    then_do-Stable (update_circle circle (with_status cancelled)) _
      (λ cs. update_where (λ c. str_eq c.address circle) (with_status cancelled) cs ≡ cs) _
      (update_circle-Mark circle (with_status cancelled) (λ c. refl) (λ c. refl))
      (insert_audit-Mark _) (insert_audit-circles _ _)

closed-Stable : (circle : String) (ev : SdkEvent) → Stable (handle_circle_closed circle ev)
unfolding handle_circle_closed
closed-Stable circle ev = with_amount_or_zero-rule Stable fails _ _ (λ released.
    with_expected-rule Stable fails _ _ (λ expected.
      let f = close_with released (or_else (string_or_null (field ev 4)) "unknown") in
      then_do-Stable (update_circle circle f) _
        (λ cs. update_where (λ c. str_eq c.address circle) f cs ≡ cs) _
        (update_circle-Mark circle f (λ c. refl) (λ c. refl)) (insert_audit-Mark _)
        (insert_audit-circles _ _)))

start_round-Stable : (circle : String) (o : Option Value) → Stable (start_round circle o)
unfolding start_round
start_round-Stable circle none = λ t. tt
start_round-Stable circle (some v) =
    with_integer-rule Stable fails _ _
      (λ n e. update_circle-Stable circle _ (λ c. refl) (λ c. refl))

settle_round-Stable :
    (circle : String) (ev : SdkEvent) (o : Option Value) → Stable (settle_round circle ev o)
unfolding settle_round
settle_round-Stable circle ev none = λ t. tt
settle_round-Stable circle ev (some v) = with_integer-rule Stable fails _ _ (λ n e.
    with_amount_or_zero-rule Stable fails _ _ (λ pot. with_integer-rule Stable fails _ _ (λ count f.
      with_recipient-rule Stable fails _ _
        (λ recipient. Mark-Stable _ _ (upsert_payout-Mark _ refl)))))

score_updated-Stable : (ev : SdkEvent) → Stable (handle_reputation_score_updated ev)
unfolding handle_reputation_score_updated
score_updated-Stable ev = with_integer-rule Stable fails _ _ (λ n e. upsert_score-Stable _ n)

put_score-Stable : (member : String) (o : Option ℕ) → Stable (put_score member o)
unfolding put_score
put_score-Stable member o = elim (Bool-cases (str_eq member "")) [
  | inl e ↦ rw e (λ t. tt)
  | inr e ↦ rw e (with_integer-rule Stable fails _ _ (λ n e. upsert_score-Stable _ n))
]

pub handle-Stable :
    (name : HandlerName) (ev : SdkEvent) → name ≢ circle_default → Stable (handle name ev)
unfolding handle handle_factory_circle_created handle_circle_initialized handle_circle_joined
    handle_circle_active handle_circle_completed handle_circle_paused handle_circle_resumed
    handle_circle_round_started handle_circle_exceptional_settlement handle_reputation_increment
handle-Stable factory_circle_created ev h = create_circle-Stable ev _
handle-Stable reputation_score_updated ev h = score_updated-Stable ev
handle-Stable reputation_increment ev h = put_score-Stable _ _
handle-Stable circle_initialized ev h = initialize_circle-Stable _ _ _
handle-Stable circle_joined ev h = join_circle-Stable _ _ _
handle-Stable circle_active ev h = update_circle-Stable _ _ (λ c. refl) (λ c. refl)
handle-Stable circle_contributed ev h = contributed-Stable _ ev
handle-Stable circle_payout ev h = payout-Stable _ ev
handle-Stable circle_default ev h = absurd (h refl)
handle-Stable circle_round_started ev h = start_round-Stable _ _
handle-Stable circle_exceptional_settlement ev h = settle_round-Stable _ ev _
handle-Stable circle_completed ev h = update_circle-Stable _ _ (λ c. refl) (λ c. refl)
handle-Stable circle_cancelled ev h = cancelled-Stable _ ev
handle-Stable circle_closed ev h = closed-Stable _ ev
handle-Stable circle_paused ev h = update_circle-Stable _ _ (λ c. refl) (λ c. refl)
handle-Stable circle_resumed ev h = update_circle-Stable _ _ (λ c. refl) (λ c. refl)
