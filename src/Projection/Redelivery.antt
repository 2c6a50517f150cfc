-- ===== src/Projection/Redelivery.antt =====
-- The statements of the handlers a second time: what a statement has left, it leaves alone.
pub mod Statements
pub mod Handlers
pub mod Later
use circleup.Prelude.{
  ℕ, suc, ◌≡◌, refl, ap, sym, ◌∙◌, String, Bool, true, false, ◌&&◌, ◌||◌, List, [], ◌∷◌, ◌++◌, any,
  arith, str_eq, eq_iff, ◌==◌, Bool-cases, inl, inr, Option, none, some, if◌then◌else◌,
}
use circleup.Failures.{HandlerError}
use circleup.Ingest.{Handled, done, threw}
use circleup.Projection.{
  CircleRow, MemberRow, ContributionRow, PayoutRow, AuditRow, ReputationRow, Tables, same_circle,
  same_member, same_contribution, same_payout, same_audit, same_reputation, same_type, has_circle,
  AuditType, was_cancelled, was_closed,
}
use circleup.Projection.Sql.{insert_unless, upsert, update_where, ◌then_do◌}
use circleup.Projection.Sql.Laws.{any-insert_unless}
use circleup.Projection.Sql.Twice.{any-insert_unless_self, upsert_twice, update_where_twice}
use circleup.Projection.Statements.{
  with_circle, insert_contribution, insert_payout, flagged, upsert_payout, insert_audit,
  insert_member, unjoined, insert_rotation, is_member, mark_joined, upsert_circle, update_circle,
  upsert_score,
}
use circleup.Projection.Outcome.{OnDone}

-- What `f` leaves, `f` leaves alone.
abbrev pub Stable : (Tables → Handled Tables) → Type 0
Stable f = (t : Tables) → OnDone (λ t'. f t' ≡ done t') (f t)

-- A sign of what `f` has done, by which a second `f` does nothing.
pub record Mark (f : Tables → Handled Tables) (Q : Tables → Type 0) : Type 0 where
  pub left : (t : Tables) → OnDone Q (f t)
  pub fixed : (t : Tables) → Q t → f t ≡ done t

abbrev OnDone-map :
    {T : Type 0} (P Q : T → Type 0) (h : Handled T)
    → ((t : T) → P t → Q t)
    → OnDone P h
    → OnDone Q h
OnDone-map P Q (done t) f k = f t k
OnDone-map P Q (threw e) f k = tt

pub Mark-Stable : (f : Tables → Handled Tables) (Q : Tables → Type 0) → Mark f Q → Stable f
Mark-Stable f Q mark t = OnDone-map Q _ (f t) mark.fixed (mark.left t)

pub Stable-Mark : (f : Tables → Handled Tables) → Stable f → Mark f (λ t. f t ≡ done t)
Stable-Mark f stable = record { left = stable; fixed = λ t e. e }

second :
    (first next : Tables → Handled Tables) (t : Tables)
    → first t ≡ done t
    → next t ≡ done t
    → (first t then_do next) ≡ done t
second first next t e k = rw e k

-- Two statements, the second of which leaves the sign of the first.
pub then_do-Mark :
    (first next : Tables → Handled Tables) (Q R : Tables → Type 0)
    → Mark first Q
    → Mark next R
    → ((t : Tables) → Q t → OnDone Q (next t))
    → Mark (λ t. first t then_do next) (λ t. Q t × R t)
then_do-Mark first next Q R m n keeps = record {
  left = λ t. both (first t) (m.left t);
  fixed = λ t (q, r). second first next t (m.fixed t q) (n.fixed t r);
}
  where
    pair : (h : Handled Tables) → OnDone Q h → OnDone R h → OnDone (λ t. Q t × R t) h
    pair (done t) q r = (q, r)
    pair (threw e) q r = tt

    both : (h : Handled Tables) → OnDone Q h → OnDone (λ t. Q t × R t) (h then_do next)
    both (done t) q = pair (next t) (keeps t q) (n.left t)
    both (threw e) q = tt

-- Whatever does not read the child table that is written.
pub with_circle-keeps :
    (Q : Tables → Type 0) (a : String) (known : Bool) (t t' : Tables)
    → Q t'
    → OnDone Q (with_circle a known t t')
with_circle-keeps Q a known t t' q = elim (Bool-cases (known || has_circle a t.circles)) [
  | inl e ↦ rw e q
  | inr e ↦ rw e tt
]
