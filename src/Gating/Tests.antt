-- ===== src/Gating/Tests.antt =====
-- sdk/src/gating.ts: the gates on one snapshot.
use circleup.Prelude.{◌≡◌, ◌≢◌, ◌↔◌, refl, false, none, some, [], ◌∷◌, arith}
use circleup.Gating.{
  RoundState, CircleConfig, StateSnapshot, active, contribute, default, payout, gate_payout,
  allowed, GateOptions, compute_action_eligibility, blocked, stale_snapshot, gate_contribute,
  is_snapshot_fresh, not_member, is_member_address, contribute_to,
}
use circleup.Gating.Eligible.{Eligible-iff, IsFresh, Eligible}
use circleup.Gating.Laws.{stale_iff, contribute_default_exclusive, eligibility_antitone}
use circleup.Gating.Mismatch.{
  ExpectedState, ActualState, StateMismatch, round_index_field, number_value, Reported-iff,
  Reported, pinned, known, detect_state_mismatches,
}

abbrev round_two : RoundState
round_two = record {
  round_index = 2;
  recipient = "GB";
  contributions_received = 1;
  deadline_ledger = 500;
  paid_out = false;
}

abbrev circle : CircleConfig
circle = record {
  members = "GA" ∷ "GB" ∷ [];
  round_amount = 100;
  usdc_token = "CU";
  reputation_contract = "CR";
  round_deadline_ledgers = 50;
}

abbrev snapshot : StateSnapshot
snapshot = record {
  status = active;
  current_round = some round_two;
  config = circle;
  fetched_at_ms = 1000;
  latest_ledger = some 400;
}

abbrev options : GateOptions
options = record {
  max_snapshot_age_ms = none;
  now_ms = none;
  member_address = some "GA";
  has_locked_collateral = none;
  has_contributed_current_round = some false;
  received_override = none;
}

may_contribute : compute_action_eligibility contribute snapshot options 2000 ≡ allowed
unfolding compute_action_eligibility gate_contribute is_snapshot_fresh not_member is_member_address
    contribute_to
may_contribute = refl

-- Nobody is named, and there are three contributions of two members.
abbrev nobody : GateOptions
nobody = record options { member_address = none; received_override = some 3 }

unnamed_may_contribute : compute_action_eligibility contribute snapshot nobody 2000 ≡ allowed
unfolding compute_action_eligibility gate_contribute is_snapshot_fresh not_member contribute_to
unnamed_may_contribute = refl

more_than_all : compute_action_eligibility payout snapshot nobody 2000 ≡ allowed
unfolding compute_action_eligibility gate_payout is_snapshot_fresh
more_than_all = refl

Eligible-iff_example :
    (compute_action_eligibility contribute snapshot options 2000 ≡ allowed)
    ↔ (IsFresh snapshot options 2000 × Eligible contribute snapshot options)
Eligible-iff_example = Eligible-iff contribute snapshot options 2000

stale_iff_example :
    (compute_action_eligibility default snapshot options 40000 ≡ blocked stale_snapshot)
    ↔ (¬ IsFresh snapshot options 40000)
stale_iff_example = stale_iff default snapshot options 40000

contribute_default_exclusive_example :
    compute_action_eligibility default snapshot options 2000 ≢ allowed
contribute_default_exclusive_example =
    contribute_default_exclusive snapshot options 2000 may_contribute

eligibility_antitone_example : compute_action_eligibility contribute snapshot options 1500 ≡ allowed
eligibility_antitone_example =
    eligibility_antitone contribute snapshot options 1500 2000 refl (omega arith) may_contribute

-- The caller saw round 1 and the chain is in round 2.
abbrev expected_state : ExpectedState
expected_state = record {
  status = some active;
  round_index = some 1;
  contributions_received = none;
  has_contributed = none;
  paid_out = none;
}

abbrev actual_state : ActualState
actual_state = record {
  status = active;
  round_index = some 2;
  contributions_received = some 1;
  has_contributed = none;
  paid_out = none;
}

abbrev round_mismatch : StateMismatch
round_mismatch = record {
  field = round_index_field;
  expected = number_value 1;
  actual = number_value 2;
}

Reported-iff_example :
    Reported round_mismatch (detect_state_mismatches expected_state actual_state) ↔ (
      (pinned round_index_field expected_state ≡ some (number_value 1))
      × (known round_index_field actual_state ≡ some (number_value 2))
      × (number_value 1 ≢ number_value 2))
Reported-iff_example = Reported-iff expected_state actual_state round_mismatch
