-- ===== src/Projection/Redelivery/Statements.antt =====
-- What each statement leaves, by which a second one does nothing.
use circleup.Prelude.{
  ℕ, suc, ◌≡◌, refl, ap, sym, ◌∙◌, String, true, List, [], ◌∷◌, any, arith, str_eq, eq_iff,
  Bool-cases, inl, inr, some,
}
use circleup.Failures.{HandlerError}
use circleup.Ingest.{done}
use circleup.Projection.{
  CircleRow, MemberRow, ContributionRow, PayoutRow, AuditRow, Tables, same_circle, same_member,
  same_contribution, same_payout, same_audit, same_reputation, same_type, AuditType, was_cancelled,
  was_closed,
}
use circleup.Projection.Sql.{insert_unless, upsert, update_where}
use circleup.Projection.Sql.Laws.{any-insert_unless, any-update_where}
use circleup.Projection.Sql.Twice.{
  any-insert_unless_self, any-upsert_self, upsert_twice, update_where_twice,
}
use circleup.Projection.Statements.{
  insert_contribution, insert_payout, flagged, upsert_payout, insert_audit, insert_member, unjoined,
  insert_rotation, is_member, mark_joined, upsert_circle, update_circle, upsert_score,
}
use circleup.Projection.Outcome.{OnDone, OnDone-then_do}
use circleup.Projection.Redelivery.{Stable, Mark, then_do-Mark, with_circle-keeps}

str_eq_refl : (s : String) → str_eq s s ≡ true
str_eq_refl s = (eq_iff s s).1 refl

pub insert_contribution-Mark :
    (row : ContributionRow)
    → Mark
        (insert_contribution row)
        (λ t. any (λ r. same_contribution r row) t.contributions ≡ true)
unfolding insert_contribution
insert_contribution-Mark row = record {
  left = λ t.
      with_circle-keeps (λ t'. any (λ r. same_contribution r row) t'.contributions ≡ true) _ _ t _
        (any-insert_unless_self same_contribution row t.contributions own);
  fixed = λ t e. rw e refl;
}
  where
    own : same_contribution row row ≡ true
    own = ground (arith, str_eq_refl row.circle_address, str_eq_refl row.member_address)

pub insert_payout-Mark :
    (row : PayoutRow)
    → Mark (insert_payout row) (λ t. any (λ r. same_payout r row) t.payouts ≡ true)
unfolding insert_payout
insert_payout-Mark row = record {
  left = λ t.
      with_circle-keeps (λ t'. any (λ r. same_payout r row) t'.payouts ≡ true) _ _ t _
        (any-insert_unless_self same_payout row t.payouts own);
  fixed = λ t e. rw e refl;
}
  where
    own : same_payout row row ≡ true
    own = ground (arith, str_eq_refl row.circle_address)

same_type_refl : (a : AuditType) → same_type a a ≡ true
same_type_refl was_cancelled = refl
same_type_refl was_closed = refl

pub insert_audit-Mark :
    (row : AuditRow)
    → Mark (insert_audit row) (λ t. any (λ r. same_audit r row) t.circle_audit_events ≡ true)
unfolding insert_audit
insert_audit-Mark row = record {
  left = λ t.
      with_circle-keeps (λ t'. any (λ r. same_audit r row) t'.circle_audit_events ≡ true) _ _ t _
        (any-insert_unless_self same_audit row t.circle_audit_events own);
  fixed = λ t e. rw e refl;
}
  where
    own : same_audit row row ≡ true
    own = ground (arith, str_eq_refl row.circle_address, same_type_refl row.event_type)

-- The members of a rotation are there.
abbrev pub AllThere : String → List String → Tables → Type 0
AllThere circle [] t = Unit
AllThere circle (m ∷ ms) t =
    (any (λ r. same_member r (unjoined circle m 0)) t.circle_members ≡ true) × AllThere circle ms t

insert_member-Mark :
    (row : MemberRow)
    → Mark (insert_member row) (λ t. any (λ r. same_member r row) t.circle_members ≡ true)
unfolding insert_member
insert_member-Mark row = record {
  left = λ t.
      with_circle-keeps (λ t'. any (λ r. same_member r row) t'.circle_members ≡ true) _ _ t _
        (any-insert_unless_self same_member row t.circle_members own);
  fixed = λ t e. rw e refl;
}
  where
    own : same_member row row ≡ true
    own = ground (arith, str_eq_refl row.circle_address, str_eq_refl row.member_address)

insert_member-any :
    (own row : MemberRow) (t : Tables)
    → any (λ r. same_member r own) t.circle_members ≡ true
    → OnDone (λ t'. any (λ r. same_member r own) t'.circle_members ≡ true) (insert_member row t)
unfolding insert_member
insert_member-any own row t e =
    with_circle-keeps (λ t'. any (λ r. same_member r own) t'.circle_members ≡ true)
      row.circle_address (any (λ r. same_member r row) t.circle_members) t
      (record t { circle_members = insert_unless same_member row t.circle_members })
      (any-insert_unless same_member (λ r. same_member r own) row t.circle_members e)

insert_rotation-keeps :
    (Q : Tables → Type 0) (circle : String)
    → ((row : MemberRow) (t : Tables) → Q t → OnDone Q (insert_member row t))
    → (members : List String) (from : ℕ) (t : Tables) → Q t
    → OnDone Q (insert_rotation circle members from t)
unfolding insert_rotation
insert_rotation-keeps Q circle k [] from t q = q
insert_rotation-keeps Q circle k (m ∷ ms) from t q =
    OnDone-then_do Q Q (insert_member (unjoined circle m from) t)
      (insert_rotation circle ms (suc from)) (k (unjoined circle m from) t q)
      (insert_rotation-keeps Q circle k ms (suc from))

pub insert_rotation-Mark :
    (circle : String) (members : List String) (from : ℕ)
    → Mark (insert_rotation circle members from) (AllThere circle members)
unfolding insert_rotation
insert_rotation-Mark circle [] from = record { left = λ t. tt; fixed = λ t q. refl }
insert_rotation-Mark circle (m ∷ ms) from =
    then_do-Mark (insert_member (unjoined circle m from)) (insert_rotation circle ms (suc from)) _ _
      (insert_member-Mark (unjoined circle m from)) (insert_rotation-Mark circle ms (suc from))
      (insert_rotation-keeps _ circle (insert_member-any (unjoined circle m from)) ms (suc from))

insert_member-circles :
    (Q : List CircleRow → Type 0) (row : MemberRow) (t : Tables)
    → Q t.circles
    → OnDone (λ t'. Q t'.circles) (insert_member row t)
unfolding insert_member
insert_member-circles Q row t q = with_circle-keeps (λ t'. Q t'.circles) _ _ t _ q

-- The rotation leaves the circles alone.
pub insert_rotation-circles :
    (Q : List CircleRow → Type 0) (circle : String) (members : List String) (from : ℕ) (t : Tables)
    → Q t.circles
    → OnDone (λ t'. Q t'.circles) (insert_rotation circle members from t)
insert_rotation-circles Q circle members from t q =
    insert_rotation-keeps (λ t'. Q t'.circles) circle (insert_member-circles Q) members from t q

pub insert_audit-circles :
    (Q : List CircleRow → Type 0) (row : AuditRow) (t : Tables)
    → Q t.circles
    → OnDone (λ t'. Q t'.circles) (insert_audit row t)
unfolding insert_audit
insert_audit-circles Q row t q = with_circle-keeps (λ t'. Q t'.circles) _ _ t _ q

pub upsert_payout-Mark :
    (row : PayoutRow)
    → row.is_exceptional ≡ true
    → Mark (upsert_payout row) (λ t.
      (any (λ r. same_payout r row) t.payouts ≡ true)
      × (upsert same_payout (flagged row) row t.payouts ≡ t.payouts))
unfolding upsert_payout
upsert_payout-Mark row e = record {
  left = λ t.
      with_circle-keeps
        (λ t'.
          (any (λ r. same_payout r row) t'.payouts ≡ true)
          × (upsert same_payout (flagged row) row t'.payouts ≡ t'.payouts))
        _ _ t _
        (
          any-upsert_self same_payout (flagged row) row own (λ r. refl) t.payouts,
          upsert_twice same_payout (flagged row) row
              (ap (λ b. record row { is_exceptional = b }) (sym e)) (λ r. refl) own (λ r. refl)
              t.payouts,
        );
  fixed = λ t (k, same). rw k (ap (λ rows. done (record t { payouts = rows })) same);
}
  where
    own : same_payout row row ≡ true
    own = ground (arith, str_eq_refl row.circle_address)

pub upsert_score-Stable : (member : String) (score : ℕ) → Stable (upsert_score member score)
unfolding upsert_score
upsert_score-Stable member score t =
    ap (λ rows. done (record t { reputation = rows }))
      (upsert_twice same_reputation (λ r. record r { score = score })
        (record { member_address = member; score = score }) refl (λ r. refl) (str_eq_refl member)
        (λ r. refl) t.reputation)

abbrev pub joined_as : ℕ → ℕ → String → MemberRow → MemberRow
joined_as now order collateral r = record r {
  join_order = some order;
  collateral = collateral;
  joined_at = some now;
}

pub mark_joined-Stable :
    (missing : HandlerError) (now : ℕ) (circle member : String) (order : ℕ) (collateral : String)
    → Stable (mark_joined missing now circle member order collateral)
unfolding mark_joined
mark_joined-Stable missing now circle member order collateral t =
    let here = is_member circle member in
    elim (Bool-cases (any here t.circle_members)) [
      | inr e ↦ rw e tt
      | inl e ↦
          rw
            (
              e,
              any-update_where here (joined_as now order collateral) here (λ r. refl)
                    t.circle_members
                  ∙ e,
            )
            (ap (λ rows. done (record t { circle_members = rows }))
              (update_where_twice here (joined_as now order collateral) (λ r. refl) (λ r. refl)
                t.circle_members))
    ]

pub upsert_circle-Mark :
    (f : CircleRow → CircleRow) (row : CircleRow)
    → f row ≡ row
    → ((c : CircleRow) → f (f c) ≡ f c)
    → ((c : CircleRow) → (f c).address ≡ c.address)
    → Mark (upsert_circle f row) (λ t. upsert same_circle f row t.circles ≡ t.circles)
unfolding upsert_circle
upsert_circle-Mark f row settled twice keeps = record {
  left = λ t.
      upsert_twice same_circle f row settled twice (str_eq_refl row.address)
        (λ c. ap (λ a. str_eq a row.address) (keeps c)) t.circles;
  fixed = λ t e. ap (λ rows. done (record t { circles = rows })) e;
}

pub update_circle-Mark :
    (a : String) (f : CircleRow → CircleRow)
    → ((c : CircleRow) → f (f c) ≡ f c)
    → ((c : CircleRow) → (f c).address ≡ c.address)
    → Mark (update_circle a f) (λ t. update_where (λ c. str_eq c.address a) f t.circles ≡ t.circles)
unfolding update_circle
update_circle-Mark a f twice keeps = record {
  left = λ t.
      update_where_twice (λ c. str_eq c.address a) f twice (λ c. ap (λ b. str_eq b a) (keeps c))
        t.circles;
  fixed = λ t e. ap (λ rows. done (record t { circles = rows })) e;
}
