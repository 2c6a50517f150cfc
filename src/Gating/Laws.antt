-- ===== src/Gating/Laws.antt =====
-- sdk/src/gating.ts: how the gates relate to one another and to the age of the snapshot.
use circleup.Prelude.{ℕ, ◌≤◌, ◌≡◌, ◌≢◌, ◌↔◌, true, none, arith, or_else}
use circleup.Gating.{
  StateSnapshot, CircleAction, join, contribute, payout, default, close, stale_snapshot, allowed,
  blocked, GateOptions, max_age, is_snapshot_fresh, compute_action_eligibility, gate_join,
  gate_contribute, gate_payout, gate_default, gate_close,
}
use circleup.Gating.Eligible.{IsFresh, Eligible-iff, is_snapshot_fresh_iff}

module _ (s : StateSnapshot) (o : GateOptions) (clock : ℕ) where
  stale : (is_snapshot_fresh s (max_age o) (or_else o.now_ms clock) ≡ true) ↔ IsFresh s o clock
  stale = is_snapshot_fresh_iff s _ _

  stale_join :
      (gate_join s o (or_else o.now_ms clock) ≡ blocked stale_snapshot) ↔ (¬ IsFresh s o clock)
  unfolding gate_join
  stale_join = ground (arith, stale)

  stale_contribute :
      (gate_contribute s o (or_else o.now_ms clock) ≡ blocked stale_snapshot)
      ↔ (¬ IsFresh s o clock)
  unfolding gate_contribute
  stale_contribute = ground (arith, stale)

  stale_payout :
      (gate_payout s o (or_else o.now_ms clock) ≡ blocked stale_snapshot) ↔ (¬ IsFresh s o clock)
  unfolding gate_payout
  stale_payout = ground (arith, stale)

  stale_default :
      (gate_default s o (or_else o.now_ms clock) ≡ blocked stale_snapshot) ↔ (¬ IsFresh s o clock)
  unfolding gate_default
  stale_default = ground (arith, stale)

  stale_close :
      (gate_close s o (or_else o.now_ms clock) ≡ blocked stale_snapshot) ↔ (¬ IsFresh s o clock)
  unfolding gate_close
  stale_close = ground (arith, stale)

-- A stale snapshot is refused before anything else is looked at: whatever the action and the rest
-- of the snapshot, the reason is `stale_snapshot` if and only if the snapshot is not fresh.
pub stale_iff :
    (a : CircleAction) (s : StateSnapshot) (o : GateOptions) (clock : ℕ)
    → (compute_action_eligibility a s o clock ≡ blocked stale_snapshot) ↔ (¬ IsFresh s o clock)
unfolding compute_action_eligibility
stale_iff join s o clock = stale_join s o clock
stale_iff contribute s o clock = stale_contribute s o clock
stale_iff payout s o clock = stale_payout s o clock
stale_iff default s o clock = stale_default s o clock
stale_iff close s o clock = stale_close s o clock

-- For one snapshot and one set of options no member may at the same time contribute to the round
-- and be marked in default in it, whatever is known of the ledger height.
pub contribute_default_exclusive :
    (s : StateSnapshot) (o : GateOptions) (clock : ℕ)
    → compute_action_eligibility contribute s o clock ≡ allowed
    → compute_action_eligibility default s o clock ≢ allowed
contribute_default_exclusive s o clock c d =
    ground (arith, (Eligible-iff contribute s o clock).0 c, (Eligible-iff default s o clock).0 d)

IsFresh-mono :
    (s : StateSnapshot) (o : GateOptions) (t u : ℕ)
    → o.now_ms ≡ none
    → t ≤ u
    → IsFresh s o u
    → IsFresh s o t
IsFresh-mono s o t u clocked le h = ground arith

-- Time only takes permission away: an action that the clock's later reading allows was allowed at
-- every earlier reading (where the options do not fix the time).
pub eligibility_antitone :
    (a : CircleAction) (s : StateSnapshot) (o : GateOptions) (t u : ℕ)
    → o.now_ms ≡ none
    → t ≤ u
    → compute_action_eligibility a s o u ≡ allowed
    → compute_action_eligibility a s o t ≡ allowed
eligibility_antitone a s o t u clocked le h =
    let (fresh, rest) = (Eligible-iff a s o u).0 h in
    (Eligible-iff a s o t).1 (IsFresh-mono s o t u clocked le fresh, rest)
