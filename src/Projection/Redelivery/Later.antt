-- ===== src/Projection/Redelivery/Later.antt =====
-- indexer/src/indexer.ts: an event that is handled again right after it was, at another time.
use mathlib.Core.Path.{subst}
use circleup.Prelude.{
  ℕ, ◌≡◌, ◌≢◌, ◌∙◌, refl, ap, String, Option, none, some, any, leb, inl, inr, Bool-cases,
}
use circleup.Failures.{HandlerError}
use circleup.Ingest.{done}
use circleup.Events.Parsers.{Joined, parse_joined_event}
use circleup.Events.Route.{
  HandlerName, factory_circle_created, reputation_score_updated, reputation_increment,
  circle_initialized, circle_joined, circle_active, circle_contributed, circle_payout,
  circle_default, circle_round_started, circle_exceptional_settlement, circle_completed,
  circle_cancelled, circle_closed, circle_paused, circle_resumed,
}
use circleup.Projection.{Tables, max_integer}
use circleup.Projection.Sql.{update_where}
use circleup.Projection.Sql.Laws.{any-update_where}
use circleup.Projection.Sql.Twice.{update_where_after}
use circleup.Projection.Statements.{is_member, mark_joined}
use circleup.Projection.Statements.Values.{in_integer}
use circleup.Projection.Changes.{SdkEvent}
use circleup.Projection.Handlers.{
  join_circle, create_circle, settle_round, handle_factory_circle_created,
  handle_circle_initialized, handle_circle_joined, handle_circle_contributed, handle_circle_payout,
  handle_circle_cancelled, handle_circle_closed, handle_circle_round_started,
  handle_circle_exceptional_settlement, handle_reputation_score_updated,
  handle_reputation_increment,
}
use circleup.Projection.Project.{handle, circle_of}
use circleup.Projection.Outcome.{OnDone}
use circleup.Projection.Redelivery.Statements.{joined_as}
use circleup.Projection.Redelivery.Handlers.{handle-Stable}

-- The same event in a transaction at another time.
abbrev pub at_time : ℕ → SdkEvent → SdkEvent
at_time later ev = record ev { now = later }

-- The member's joined_at is the later time; nothing else changes.
abbrev pub rejoined_at : String → ℕ → Option Joined → Tables → Tables
rejoined_at circle later none t = t
rejoined_at circle later (some parsed) t = record t {
  circle_members =
      update_where (is_member circle parsed.member) (λ r. record r { joined_at = some later })
        t.circle_members;
}

-- What an event that is handled again leaves: only circle/joined leaves another joined_at.
abbrev pub rejoined : HandlerName → SdkEvent → ℕ → Tables → Tables
rejoined circle_joined ev later t =
    rejoined_at (circle_of ev) later (parse_joined_event ev.decoded.payload) t
rejoined _ ev later t = t

mark_joined-again :
    (missing : HandlerError) (now later : ℕ) (circle member : String) (order : ℕ)
    (collateral : String) (t : Tables)
    → OnDone
        (λ t'.
          mark_joined missing later circle member order collateral t'
          ≡ done (record t' {
            circle_members =
                update_where
                  (is_member circle member)
                  (λ r. record r { joined_at = some later })
                  t'.circle_members;
          }))
        (mark_joined missing now circle member order collateral t)
unfolding mark_joined
mark_joined-again missing now later circle member order collateral t =
    let here = is_member circle member in
    elim (Bool-cases (any here t.circle_members)) [
      | inr e ↦ rw e tt
      | inl e ↦
          rw
            (
              e,
              any-update_where here (joined_as now order collateral) here (λ r. refl)
                    t.circle_members
                  ∙ e,
            )
            (ap (λ rows. done (record t { circle_members = rows }))
              (update_where_after here (joined_as now order collateral)
                (joined_as later order collateral) (λ r. record r { joined_at = some later })
                (λ r. refl) (λ r. refl) t.circle_members))
    ]

join_circle-again :
    (now later : ℕ) (circle : String) (o : Option Joined) (t : Tables)
    → OnDone
        (λ t'. join_circle later circle o t' ≡ done (rejoined_at circle later o t'))
        (join_circle now circle o t)
unfolding join_circle in_integer
join_circle-again now later circle none t = tt
join_circle-again now later circle (some parsed) t =
    elim (Bool-cases (leb parsed.join_order max_integer)) [
      | inl e ↦ rw e (mark_joined-again _ now later circle _ _ _ t)
      | inr e ↦ rw e tt
    ]

handle-again :
    (name : HandlerName) (ev : SdkEvent) (later : ℕ) (t : Tables)
    → name ≢ circle_default
    → OnDone
        (λ t'. handle name (at_time later ev) t' ≡ done (rejoined name ev later t'))
        (handle name ev t)
unfolding handle handle_factory_circle_created handle_circle_initialized handle_circle_joined
    handle_circle_contributed handle_circle_payout handle_circle_cancelled handle_circle_closed
    handle_circle_round_started handle_circle_exceptional_settlement handle_reputation_score_updated
    handle_reputation_increment create_circle settle_round
handle-again factory_circle_created ev later t h = handle-Stable factory_circle_created ev h t
handle-again reputation_score_updated ev later t h = handle-Stable reputation_score_updated ev h t
handle-again reputation_increment ev later t h = handle-Stable reputation_increment ev h t
handle-again circle_initialized ev later t h = handle-Stable circle_initialized ev h t
handle-again circle_joined ev later t h =
    join_circle-again ev.now later (circle_of ev) (parse_joined_event ev.decoded.payload) t
handle-again circle_active ev later t h = handle-Stable circle_active ev h t
handle-again circle_contributed ev later t h = handle-Stable circle_contributed ev h t
handle-again circle_payout ev later t h = handle-Stable circle_payout ev h t
handle-again circle_default ev later t h = absurd (h refl)
handle-again circle_round_started ev later t h = handle-Stable circle_round_started ev h t
handle-again circle_exceptional_settlement ev later t h =
    handle-Stable circle_exceptional_settlement ev h t
handle-again circle_completed ev later t h = handle-Stable circle_completed ev h t
handle-again circle_cancelled ev later t h = handle-Stable circle_cancelled ev h t
handle-again circle_closed ev later t h = handle-Stable circle_closed ev h t
handle-again circle_paused ev later t h = handle-Stable circle_paused ev h t
handle-again circle_resumed ev later t h = handle-Stable circle_resumed ev h t

-- An event that was handled without an error and is handled again right after it, at any time, is
-- handled without an error, and the tables are as they were, but for the joined_at of the member who
-- joined, which becomes the later time. The handler is any but the one of circle/default, which
-- counts a default each time. The columns updated_at are not in the tables.
pub handle_twice :
    (name : HandlerName) (ev : SdkEvent) (later : ℕ) (t t' : Tables)
    → name ≢ circle_default
    → handle name ev t ≡ done t'
    → handle name (at_time later ev) t' ≡ done (rejoined name ev later t')
handle_twice name ev later t t' h e =
    subst (OnDone (λ t'. handle name (at_time later ev) t' ≡ done (rejoined name ev later t'))) e
      (handle-again name ev later t h)
