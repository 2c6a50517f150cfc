-- ===== src/Projection/Statements.antt =====
-- The statements that the handlers send, each on all the tables.
pub mod Values
use circleup.Prelude.{
  ℕ, suc, ◌+◌, String, Bool, true, false, ◌&&◌, ◌||◌, Option, none, some, List, [], ◌∷◌, ◌++◌, any,
  leb, ◌==◌, if◌then◌else◌, str_eq,
}
use circleup.Failures.{HandlerError}
use circleup.Ingest.{Handled, done, threw}
use circleup.Projection.{
  CircleRow, MemberRow, ContributionRow, PayoutRow, DefaultRow, AuditRow, ReputationRow, Tables,
  max_integer, same_circle, same_member, same_contribution, same_payout, same_audit,
  same_reputation, has_circle,
}
use circleup.Projection.Sql.{insert_unless, upsert, update_where, ◌then_do◌}

-- An error of Postgres by its SQLSTATE; its message is left out.
abbrev pub sql_error : String → HandlerError
sql_error state = record { code = some state; name = "error"; message = "" }

abbrev pub foreign_key_violation : HandlerError
foreign_key_violation = sql_error "23503"

-- The row of a child table needs its circle, unless the row is known and nothing is inserted.
abbrev pub with_circle : String → Bool → Tables → Tables → Handled Tables
with_circle a known t t' =
    if known || has_circle a t.circles then done t' else threw foreign_key_violation

unfoldable pub insert_contribution : ContributionRow → Tables → Handled Tables
unfolding has_circle insert_unless
insert_contribution row t =
    with_circle row.circle_address (any (λ r. same_contribution r row) t.contributions) t
      (record t { contributions = insert_unless same_contribution row t.contributions })

unfoldable pub insert_payout : PayoutRow → Tables → Handled Tables
unfolding has_circle insert_unless
insert_payout row t =
    with_circle row.circle_address (any (λ r. same_payout r row) t.payouts) t
      (record t { payouts = insert_unless same_payout row t.payouts })

-- DO UPDATE SET is_exceptional = TRUE, defaulted_count = EXCLUDED.defaulted_count
abbrev pub flagged : PayoutRow → PayoutRow → PayoutRow
flagged row r = record r { is_exceptional = true; defaulted_count = row.defaulted_count }

unfoldable pub upsert_payout : PayoutRow → Tables → Handled Tables
unfolding has_circle upsert
upsert_payout row t =
    with_circle row.circle_address (any (λ r. same_payout r row) t.payouts) t
      (record t { payouts = upsert same_payout (flagged row) row t.payouts })

unfoldable pub insert_audit : AuditRow → Tables → Handled Tables
unfolding has_circle insert_unless
insert_audit row t =
    with_circle row.circle_address (any (λ r. same_audit r row) t.circle_audit_events) t
      (record t { circle_audit_events = insert_unless same_audit row t.circle_audit_events })

-- The table has no key of its own.
unfoldable pub insert_default : DefaultRow → Tables → Handled Tables
unfolding has_circle
insert_default row t =
    with_circle row.circle_address false t (record t { defaults = t.defaults ++ row ∷ [] })

unfoldable pub insert_member : MemberRow → Tables → Handled Tables
unfolding has_circle insert_unless
insert_member row t =
    with_circle row.circle_address (any (λ r. same_member r row) t.circle_members) t
      (record t { circle_members = insert_unless same_member row t.circle_members })

-- A member of the rotation who has not joined.
abbrev pub unjoined : String → String → ℕ → MemberRow
unjoined circle member order = record {
  circle_address = circle;
  member_address = member;
  payout_order = order;
  join_order = none;
  collateral = "0";
  defaults = 0;
  joined_at = none;
}

-- INSERT ... SELECT over the rotation, whose orders begin at `from`.
unfoldable pub insert_rotation : String → List String → ℕ → Tables → Handled Tables
unfolding insert_member
insert_rotation circle [] from t = done t
insert_rotation circle (m ∷ ms) from t =
    insert_member (unjoined circle m from) t then_do insert_rotation circle ms (suc from)

abbrev pub is_member : String → String → MemberRow → Bool
is_member circle member r = str_eq r.circle_address circle && str_eq r.member_address member

-- UPDATE circle_members SET defaults = defaults + 1, which may leave INTEGER.
unfoldable pub count_default : String → String → Tables → Handled Tables
unfolding update_where
count_default circle member t =
    let full =
      any (λ r. is_member circle member r && leb max_integer r.defaults) t.circle_members in
    let rows =
      update_where (is_member circle member) (λ r. record r { defaults = r.defaults + 1 })
        t.circle_members in
    if full then threw (sql_error "22003") else done (record t { circle_members = rows })

-- UPDATE circle_members SET joined_at, join_order, collateral; no row to update is an error of
-- the handler.
unfoldable pub mark_joined :
    HandlerError → ℕ → String → String → ℕ → String → Tables → Handled Tables
unfolding update_where
mark_joined missing now circle member order collateral t =
    let rows =
      update_where (is_member circle member)
        (λ r. record r { join_order = some order; collateral = collateral; joined_at = some now })
        t.circle_members in
    if any (is_member circle member) t.circle_members
    then done (record t { circle_members = rows })
    else threw missing

-- INSERT INTO circles ... ON CONFLICT (address) DO UPDATE
unfoldable pub upsert_circle : (CircleRow → CircleRow) → CircleRow → Tables → Handled Tables
unfolding upsert
upsert_circle f row t = done (record t { circles = upsert same_circle f row t.circles })

-- UPDATE circles SET ... WHERE address
unfoldable pub update_circle : String → (CircleRow → CircleRow) → Tables → Handled Tables
unfolding update_where
update_circle a f t =
    done (record t { circles = update_where (λ c. str_eq c.address a) f t.circles })

-- INSERT INTO reputation ... ON CONFLICT (member_address) DO UPDATE SET score
unfoldable pub upsert_score : String → ℕ → Tables → Handled Tables
unfolding upsert
upsert_score member score t =
    let row : ReputationRow = record { member_address = member; score = score } in
    done (record t {
      reputation = upsert same_reputation (λ r. record r { score = score }) row t.reputation;
    })
