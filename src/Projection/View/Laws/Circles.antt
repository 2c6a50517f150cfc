-- ===== src/Projection/View/Laws/Circles.antt =====
-- The statements and handlers that leave the circles alone.
use circleup.Prelude.{
  false, ◌++◌, ◌∷◌, [], leb, ℕ, String, Option, none, some, str_eq, Bool-cases, inl, inr, any, ◌&&◌,
}
use circleup.Failures.{HandlerError}
use circleup.Ingest.{Handled, threw}
use circleup.Events.{Value}
use circleup.Events.Parsers.{Joined}
use circleup.Projection.{PayoutRow, max_integer, Tables, ContributionRow, DefaultRow}
use circleup.Projection.Sql.{◌then_do◌}
use circleup.Projection.Statements.{
  insert_payout, insert_contribution, upsert_payout, insert_default, count_default, mark_joined,
  upsert_score, is_member,
}
use circleup.Projection.Changes.{SdkEvent}
use circleup.Projection.Handlers.{
  join_circle, put_score, handle_circle_contributed, settle_round, handle_reputation_score_updated,
  handle_circle_default,
}
use circleup.Projection.Rules.{
  in_integer-rule, with_integer-rule, with_amount-rule, with_amount_or_zero-rule,
  with_recipient-rule,
}
use circleup.Projection.Outcome.{OnDone-then_do}
use circleup.Projection.View.Laws.{LeavesCircles}
use circleup.Projection.Redelivery.{with_circle-keeps}

insert_contribution-circles : (row : ContributionRow) → LeavesCircles (insert_contribution row)
unfolding insert_contribution
insert_contribution-circles row Q t q = with_circle-keeps (λ t'. Q t'.circles) _ _ t _ q

pub insert_payout-circles : (row : PayoutRow) → LeavesCircles (insert_payout row)
unfolding insert_payout
insert_payout-circles row Q t q = with_circle-keeps (λ t'. Q t'.circles) _ _ t _ q

upsert_payout-circles : (row : PayoutRow) → LeavesCircles (upsert_payout row)
unfolding upsert_payout
upsert_payout-circles row Q t q = with_circle-keeps (λ t'. Q t'.circles) _ _ t _ q

insert_default-circles : (row : DefaultRow) → LeavesCircles (insert_default row)
unfolding insert_default
insert_default-circles row Q t q =
    with_circle-keeps (λ t'. Q t'.circles) row.circle_address false t
      (record t { defaults = t.defaults ++ row ∷ [] }) q

count_default-circles : (circle member : String) → LeavesCircles (count_default circle member)
unfolding count_default
count_default-circles circle member Q t q =
    elim (Bool-cases
      (any (λ r. is_member circle member r && leb max_integer r.defaults) t.circle_members)) [
        | inl e ↦ rw e tt
        | inr e ↦ rw e q
      ]

mark_joined-circles :
    (missing : HandlerError) (now : ℕ) (circle member : String) (order : ℕ) (collateral : String)
    → LeavesCircles (mark_joined missing now circle member order collateral)
unfolding mark_joined
mark_joined-circles missing now circle member order collateral Q t q =
    elim (Bool-cases (any (is_member circle member) t.circle_members)) [
      | inl e ↦ rw e q
      | inr e ↦ rw e tt
    ]

upsert_score-circles : (member : String) (score : ℕ) → LeavesCircles (upsert_score member score)
unfolding upsert_score
upsert_score-circles member score Q t q = q

threw-circles : (e : HandlerError) → LeavesCircles (λ t. threw e)
threw-circles e Q t q = tt

then_do-circles :
    (first next : Tables → Handled Tables)
    → LeavesCircles first
    → LeavesCircles next
    → LeavesCircles (λ t. first t then_do next)
then_do-circles first next h k Q t q =
    OnDone-then_do (λ t'. Q t'.circles) (λ t'. Q t'.circles) (first t) next (h Q t q) (k Q)

pub join_circle-circles :
    (now : ℕ) (circle : String) (o : Option Joined) → LeavesCircles (join_circle now circle o)
unfolding join_circle
join_circle-circles now circle none = λ Q t q. tt
join_circle-circles now circle (some parsed) =
    in_integer-rule LeavesCircles threw-circles _ _ (mark_joined-circles _ now circle _ _ _)

pub contributed-circles :
    (circle : String) (ev : SdkEvent) → LeavesCircles (handle_circle_contributed circle ev)
unfolding handle_circle_contributed
contributed-circles circle ev = with_integer-rule LeavesCircles threw-circles _ _ (λ n e.
    with_amount_or_zero-rule LeavesCircles threw-circles _ _
      (λ amount. insert_contribution-circles _))

pub default-circles :
    (circle : String) (ev : SdkEvent) → LeavesCircles (handle_circle_default circle ev)
unfolding handle_circle_default
default-circles circle ev = with_amount-rule LeavesCircles threw-circles _ _ (λ pot.
    with_integer-rule LeavesCircles threw-circles _ _ (λ n e.
      then_do-circles (insert_default _) _ (insert_default-circles _)
        (count_default-circles circle _)))

pub settle_round-circles :
    (circle : String) (ev : SdkEvent) (o : Option Value) → LeavesCircles (settle_round circle ev o)
unfolding settle_round
settle_round-circles circle ev none = λ Q t q. tt
settle_round-circles circle ev (some v) = with_integer-rule LeavesCircles threw-circles _ _ (λ n e.
    with_amount_or_zero-rule LeavesCircles threw-circles _ _ (λ pot.
      with_integer-rule LeavesCircles threw-circles _ _ (λ count f.
        with_recipient-rule LeavesCircles threw-circles _ _
          (λ recipient. upsert_payout-circles _))))

pub score_updated-circles : (ev : SdkEvent) → LeavesCircles (handle_reputation_score_updated ev)
unfolding handle_reputation_score_updated
score_updated-circles ev =
    with_integer-rule LeavesCircles threw-circles _ _ (λ n e. upsert_score-circles _ n)

pub put_score-circles : (member : String) (o : Option ℕ) → LeavesCircles (put_score member o)
unfolding put_score
put_score-circles member o = elim (Bool-cases (str_eq member "")) [
  | inl e ↦ rw e (λ Q t q. tt)
  | inr e ↦
      rw e (with_integer-rule LeavesCircles threw-circles _ _ (λ n e. upsert_score-circles _ n))
]
