-- ===== src/Projection.antt =====
-- indexer/src/indexer.ts, the event handlers, on the tables of indexer/src/db/schema.sql and of the
-- migrations 004, 005 and 007: what an event writes. A table is the list of its rows without the
-- serial numbers and the columns created_at and updated_at; joined_at is a time. A NUMERIC column
-- keeps the text that is sent. The rows of a statement are inserted at the end. What Postgres does
-- with a statement is written out: a value that is no number, or is outside INTEGER, a missing NOT
-- NULL value, ON CONFLICT, and then the foreign key, in that order. Log lines are not modelled.
pub mod Sql
pub mod Statements
pub mod Changes
pub mod Handlers
pub mod Project
pub mod Rules
pub mod Payloads
pub mod Outcome
pub mod Redelivery
pub mod View
mod Tests
pub mod Ingestion
use circleup.Prelude.{ℕ, String, Bool, Option, List, ◌&&◌, ◌==◌, str_eq, any}
use circleup.Failures.{HandlerError}

pub data CircleStatus : Type 0 where
  pending active completed cancelled closed : CircleStatus

pub record CircleRow : Type 0 where
  pub address : String
  pub creator : String
  pub round_amount : String
  pub member_count : ℕ
  pub total_rounds : ℕ
  pub status : CircleStatus
  pub current_round : ℕ
  pub created_ledger : ℕ
  pub paused : Bool
  pub total_released : Option String
  pub close_reason : Option String

pub record MemberRow : Type 0 where
  pub circle_address : String
  pub member_address : String
  pub payout_order : ℕ
  pub join_order : Option ℕ
  pub collateral : String
  pub defaults : ℕ
  pub joined_at : Option ℕ

pub record ContributionRow : Type 0 where
  pub circle_address : String
  pub member_address : String
  pub round_index : ℕ
  pub amount : String
  pub tx_hash : String
  pub ledger : ℕ

pub record PayoutRow : Type 0 where
  pub circle_address : String
  pub recipient : String
  pub round_index : ℕ
  pub amount : String
  pub tx_hash : String
  pub ledger : ℕ
  pub is_exceptional : Bool
  pub defaulted_count : Option ℕ

pub record DefaultRow : Type 0 where
  pub circle_address : String
  pub member_address : String
  pub round_index : ℕ
  pub penalty : String
  pub tx_hash : String
  pub ledger : ℕ

pub data AuditType : Type 0 where
  was_cancelled was_closed : AuditType

pub record AuditRow : Type 0 where
  pub circle_address : String
  pub event_type : AuditType
  pub triggered_by : Option String
  pub ledger : Option String
  pub tx_hash : String
  pub total_released : Option String
  pub total_expected_collateral : Option String
  pub close_reason : Option String

pub record ReputationRow : Type 0 where
  pub member_address : String
  pub score : ℕ

pub record Tables : Type 0 where
  pub circles : List CircleRow
  pub circle_members : List MemberRow
  pub contributions : List ContributionRow
  pub payouts : List PayoutRow
  pub defaults : List DefaultRow
  pub circle_audit_events : List AuditRow
  pub reputation : List ReputationRow

-- The largest INTEGER.
abbrev pub max_integer : ℕ
max_integer = 2147483647

-- The uniqueness constraints: whether two rows have the same key.
abbrev pub same_circle : CircleRow → CircleRow → Bool
same_circle r s = str_eq r.address s.address

abbrev pub same_member : MemberRow → MemberRow → Bool
same_member r s =
    str_eq r.circle_address s.circle_address && str_eq r.member_address s.member_address

abbrev pub same_contribution : ContributionRow → ContributionRow → Bool
same_contribution r s =
    str_eq r.circle_address s.circle_address
    && str_eq r.member_address s.member_address
    && r.round_index == s.round_index

abbrev pub same_payout : PayoutRow → PayoutRow → Bool
same_payout r s = str_eq r.circle_address s.circle_address && r.round_index == s.round_index

abbrev pub same_type : AuditType → AuditType → Bool
same_type was_cancelled was_cancelled = Bool.true
same_type was_closed was_closed = Bool.true
same_type _ _ = Bool.false

abbrev pub same_audit : AuditRow → AuditRow → Bool
same_audit r s = str_eq r.circle_address s.circle_address && same_type r.event_type s.event_type

abbrev pub same_reputation : ReputationRow → ReputationRow → Bool
same_reputation r s = str_eq r.member_address s.member_address

-- The foreign key to circles(address).
unfoldable pub has_circle : String → List CircleRow → Bool
has_circle a rows = any (λ c. str_eq c.address a) rows
