-- ===== src/Gating.antt =====
-- sdk/src/gating.ts: whether a contract write may be submitted, decided from a snapshot of the
-- circle. `undefined` and `null` are `none`; ages and ledgers are integers, and a test `a - b < c`
-- is written `a < c + b`, which is the same test where the difference is negative. The text of a
-- refusal (`message`) is not modelled, its machine-readable reason is.
pub mod Eligible
pub mod Laws
pub mod Mismatch
mod Tests
use circleup.Prelude.{
  ℕ, suc, ◌+◌, String, Bool, true, false, not, ◌&&◌, ◌||◌, Option, none, some, List, [], ◌∷◌,
  length, any, ltb, leb, if◌then◌else◌, or_else, str_eq,
}

pub data CircleStatus : Type 0 where
  pending active completed cancelled : CircleStatus

pub record RoundState : Type 0 where
  pub round_index : ℕ
  pub recipient : String
  pub contributions_received : ℕ
  pub deadline_ledger : ℕ
  pub paid_out : Bool

pub record CircleConfig : Type 0 where
  pub members : List String
  pub round_amount : ℕ
  pub usdc_token : String
  pub reputation_contract : String
  pub round_deadline_ledgers : ℕ

pub record StateSnapshot : Type 0 where
  pub status : CircleStatus
  pub current_round : Option RoundState
  pub config : CircleConfig
  pub fetched_at_ms : ℕ
  pub latest_ledger : Option ℕ

pub data CircleAction : Type 0 where
  join contribute payout default close : CircleAction

pub data GateBlockReason : Type 0 where
  stale_snapshot wrong_status not_a_member already_joined : GateBlockReason
  already_contributed deadline_passed deadline_not_passed : GateBlockReason
  round_not_complete no_active_round : GateBlockReason

pub data GateResult : Type 0 where
  allowed : GateResult
  blocked : GateBlockReason → GateResult

-- A maximum age in milliseconds, which may be `Infinity`.
pub data MaxAge : Type 0 where
  finite : ℕ → MaxAge
  infinity : MaxAge

pub record GateOptions : Type 0 where
  pub max_snapshot_age_ms : Option MaxAge
  pub now_ms : Option ℕ
  pub member_address : Option String
  pub has_locked_collateral : Option Bool
  pub has_contributed_current_round : Option Bool
  pub received_override : Option ℕ

abbrev pub default_max_snapshot_age_ms : MaxAge
default_max_snapshot_age_ms = finite 30000

unfoldable pub is_snapshot_fresh : StateSnapshot → MaxAge → ℕ → Bool
is_snapshot_fresh snapshot infinity now_ms = true
is_snapshot_fresh snapshot (finite max_age_ms) now_ms =
    ltb now_ms (max_age_ms + snapshot.fetched_at_ms)

unfoldable pub is_member_address : List String → String → Bool
is_member_address members address = any (λ m. str_eq m address) members

-- `if (flag)` on an optional Boolean.
abbrev pub truthy : Option Bool → Bool
truthy none = false
truthy (some b) = b

-- `opts.memberAddress && !isMemberAddress(...)`; the empty string is falsy.
unfoldable pub not_member : Option String → List String → Bool
not_member none members = false
not_member (some address) members =
    not (str_eq address "") && not (is_member_address members address)

abbrev pub is_active : CircleStatus → Bool
is_active active = true
is_active _ = false

abbrev pub is_pending : CircleStatus → Bool
is_pending pending = true
is_pending _ = false

abbrev pub is_terminal : CircleStatus → Bool
is_terminal completed = true
is_terminal cancelled = true
is_terminal _ = false

abbrev pub max_age : GateOptions → MaxAge
max_age opts = or_else opts.max_snapshot_age_ms default_max_snapshot_age_ms

gate_join : StateSnapshot → GateOptions → ℕ → GateResult
gate_join snapshot opts now_ms =
    if not (is_snapshot_fresh snapshot (max_age opts) now_ms)
    then blocked stale_snapshot
    else if not (is_pending snapshot.status)
    then blocked wrong_status
    else if not_member opts.member_address snapshot.config.members
    then blocked not_a_member
    else if truthy opts.has_locked_collateral
    then blocked already_joined
    else allowed

-- `snapshot.latestLedger !== null && snapshot.latestLedger > round.deadlineLedger`
abbrev past_deadline : Option ℕ → RoundState → Bool
past_deadline none round = false
past_deadline (some latest) round = ltb round.deadline_ledger latest

contribute_to : StateSnapshot → GateOptions → RoundState → GateResult
contribute_to snapshot opts round =
    if not_member opts.member_address snapshot.config.members
    then blocked not_a_member
    else if past_deadline snapshot.latest_ledger round
    then blocked deadline_passed
    else if truthy opts.has_contributed_current_round
    then blocked already_contributed
    else allowed

-- The part of a gate that follows `if (!round) return blocked("no_active_round")`.
abbrev with_round : Option RoundState → (RoundState → GateResult) → GateResult
with_round none k = blocked no_active_round
with_round (some round) k = k round

gate_contribute : StateSnapshot → GateOptions → ℕ → GateResult
unfolding contribute_to
gate_contribute snapshot opts now_ms =
    if not (is_snapshot_fresh snapshot (max_age opts) now_ms)
    then blocked stale_snapshot
    else if not (is_active snapshot.status)
    then blocked wrong_status
    else with_round snapshot.current_round (contribute_to snapshot opts)

abbrev received : GateOptions → RoundState → ℕ
received opts round = or_else opts.received_override round.contributions_received

pay_out_of : StateSnapshot → GateOptions → RoundState → GateResult
pay_out_of snapshot opts round =
    if ltb (received opts round) (length snapshot.config.members)
    then blocked round_not_complete
    else allowed

gate_payout : StateSnapshot → GateOptions → ℕ → GateResult
unfolding pay_out_of
gate_payout snapshot opts now_ms =
    if not (is_snapshot_fresh snapshot (max_age opts) now_ms)
    then blocked stale_snapshot
    else if not (is_active snapshot.status)
    then blocked wrong_status
    else with_round snapshot.current_round (pay_out_of snapshot opts)

-- Fail-closed: without a ledger height the deadline has not demonstrably passed.
abbrev deadline_open : Option ℕ → RoundState → Bool
deadline_open none round = true
deadline_open (some latest) round = leb latest round.deadline_ledger

default_in : StateSnapshot → GateOptions → RoundState → GateResult
default_in snapshot opts round =
    if not_member opts.member_address snapshot.config.members
    then blocked not_a_member
    else if truthy opts.has_contributed_current_round
    then blocked already_contributed
    else if deadline_open snapshot.latest_ledger round
    then blocked deadline_not_passed
    else allowed

gate_default : StateSnapshot → GateOptions → ℕ → GateResult
unfolding default_in
gate_default snapshot opts now_ms =
    if not (is_snapshot_fresh snapshot (max_age opts) now_ms)
    then blocked stale_snapshot
    else if not (is_active snapshot.status)
    then blocked wrong_status
    else with_round snapshot.current_round (default_in snapshot opts)

gate_close : StateSnapshot → GateOptions → ℕ → GateResult
gate_close snapshot opts now_ms =
    if not (is_snapshot_fresh snapshot (max_age opts) now_ms)
    then blocked stale_snapshot
    else if not (is_terminal snapshot.status)
    then blocked wrong_status
    else if not_member opts.member_address snapshot.config.members
    then blocked not_a_member
    else allowed

-- The clock is `Date.now()`, read where the options give no time. The `switch` has no other case.
unfoldable pub compute_action_eligibility :
    CircleAction → StateSnapshot → GateOptions → ℕ → GateResult
unfolding gate_join gate_contribute gate_payout gate_default gate_close
compute_action_eligibility join snapshot opts clock =
    gate_join snapshot opts (or_else opts.now_ms clock)
compute_action_eligibility contribute snapshot opts clock =
    gate_contribute snapshot opts (or_else opts.now_ms clock)
compute_action_eligibility payout snapshot opts clock =
    gate_payout snapshot opts (or_else opts.now_ms clock)
compute_action_eligibility default snapshot opts clock =
    gate_default snapshot opts (or_else opts.now_ms clock)
compute_action_eligibility close snapshot opts clock =
    gate_close snapshot opts (or_else opts.now_ms clock)

-- `buildSnapshot`
unfoldable pub build_snapshot :
    CircleStatus → Option RoundState → CircleConfig → Option ℕ → ℕ → StateSnapshot
build_snapshot status current_round config latest_ledger now_ms = record {
  status = status;
  current_round = current_round;
  config = config;
  fetched_at_ms = now_ms;
  latest_ledger = latest_ledger;
}
