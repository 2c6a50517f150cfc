-- ===== src/Gating/Eligible.antt =====
-- sdk/src/gating.ts: what each gate admits, stated apart from the order in which it tests.
use circleup.Prelude.{
  ℕ, ◌+◌, ◌≤◌, ◌<◌, ◌≡◌, ◌⊎◌, ◌↔◌, String, true, false, Option, none, some, List, [], ◌∷◌, length,
  arith, or_else, eq_iff,
}
use circleup.Gating.{
  pending, active, completed, cancelled, RoundState, StateSnapshot, CircleAction, join, contribute,
  payout, default, close, allowed, MaxAge, finite, infinity, GateOptions,
  default_max_snapshot_age_ms, max_age, gate_join, gate_contribute, gate_payout, gate_default,
  gate_close, is_snapshot_fresh, is_member_address, truthy, not_member, compute_action_eligibility,
}

-- The snapshot is younger than the age that the options or the default allow.
abbrev pub IsYounger : MaxAge → StateSnapshot → ℕ → Type 0
IsYounger infinity snapshot now_ms = Unit
IsYounger (finite age) snapshot now_ms = now_ms < age + snapshot.fetched_at_ms

abbrev pub IsFresh : StateSnapshot → GateOptions → ℕ → Type 0
IsFresh snapshot opts clock =
    IsYounger (or_else opts.max_snapshot_age_ms default_max_snapshot_age_ms) snapshot
      (or_else opts.now_ms clock)

abbrev pub Lists : List String → String → Type 0
Lists [] address = ⊥
Lists (m ∷ members) address = (m ≡ address) ⊎ Lists members address

-- The acting member, where one is named, is on the circle's list. An action that names nobody, or
-- the empty address, passes, also where the documentation asks for an address.
abbrev pub IsListed : Option String → List String → Type 0
IsListed none members = Unit
IsListed (some address) members = (address ≡ "") ⊎ Lists members address

abbrev pub NotPassed : Option ℕ → ℕ → Type 0
NotPassed none deadline = Unit
NotPassed (some latest) deadline = latest ≤ deadline

abbrev pub Passed : Option ℕ → ℕ → Type 0
Passed none deadline = ⊥
Passed (some latest) deadline = deadline < latest

-- The conditions of each gate beside the fresh snapshot. They are those that its documentation lists,
-- but for three: no address is asked for (`IsListed`); more contributions than members pass for a
-- payout, where the documentation has `===`; and contribute has no test of the round index against
-- the current round's (item 7), since the snapshot has no other round index.
abbrev pub Eligible : CircleAction → StateSnapshot → GateOptions → Type 0
Eligible join s o =
    (s.status ≡ pending)
    × IsListed o.member_address s.config.members
    × (truthy o.has_locked_collateral ≡ false)
Eligible contribute s o =
    (s.status ≡ active)
    × ((r : RoundState) × (s.current_round ≡ some r)
        × IsListed o.member_address s.config.members
        × NotPassed s.latest_ledger r.deadline_ledger
        × (truthy o.has_contributed_current_round ≡ false))
Eligible payout s o =
    (s.status ≡ active)
    × ((r : RoundState) × (s.current_round ≡ some r)
        × (length s.config.members ≤ or_else o.received_override r.contributions_received))
Eligible default s o =
    (s.status ≡ active)
    × ((r : RoundState) × (s.current_round ≡ some r)
        × IsListed o.member_address s.config.members
        × Passed s.latest_ledger r.deadline_ledger
        × (truthy o.has_contributed_current_round ≡ false))
Eligible close s o =
    ((s.status ≡ completed) ⊎ (s.status ≡ cancelled)) × IsListed o.member_address s.config.members

pub is_snapshot_fresh_iff :
    (s : StateSnapshot) (age : MaxAge) (now_ms : ℕ)
    → (is_snapshot_fresh s age now_ms ≡ true) ↔ IsYounger age s now_ms
unfolding is_snapshot_fresh
is_snapshot_fresh_iff s (finite age) now_ms = ground arith
is_snapshot_fresh_iff s infinity now_ms = ground arith

is_member_address_iff :
    (members : List String) (address : String)
    → (is_member_address members address ≡ true) ↔ Lists members address
unfolding is_member_address
is_member_address_iff [] address = ground arith
is_member_address_iff (m ∷ members) address =
    ground (arith, eq_iff m address, is_member_address_iff members address)

pub not_member_iff :
    (member : Option String) (members : List String)
    → (not_member member members ≡ false) ↔ IsListed member members
unfolding not_member
not_member_iff none members = ground arith
not_member_iff (some address) members =
    ground (arith, eq_iff address "", is_member_address_iff members address)

module _ (s : StateSnapshot) (o : GateOptions) (clock : ℕ) where
  fresh : (is_snapshot_fresh s (max_age o) (or_else o.now_ms clock) ≡ true) ↔ IsFresh s o clock
  fresh = is_snapshot_fresh_iff s _ _

  listed :
      (not_member o.member_address s.config.members ≡ false)
      ↔ IsListed o.member_address s.config.members
  listed = not_member_iff _ _

  join_iff :
      (gate_join s o (or_else o.now_ms clock) ≡ allowed) ↔ (IsFresh s o clock × Eligible join s o)
  unfolding gate_join
  join_iff = ground (arith, fresh, listed)

  contribute_iff :
      (gate_contribute s o (or_else o.now_ms clock) ≡ allowed)
      ↔ (IsFresh s o clock × Eligible contribute s o)
  unfolding gate_contribute
  contribute_iff = ground (arith, fresh, listed)

  payout_iff :
      (gate_payout s o (or_else o.now_ms clock) ≡ allowed)
      ↔ (IsFresh s o clock × Eligible payout s o)
  unfolding gate_payout
  payout_iff = ground (arith, fresh, listed)

  default_iff :
      (gate_default s o (or_else o.now_ms clock) ≡ allowed)
      ↔ (IsFresh s o clock × Eligible default s o)
  unfolding gate_default
  default_iff = ground (arith, fresh, listed)

  close_iff :
      (gate_close s o (or_else o.now_ms clock) ≡ allowed) ↔ (IsFresh s o clock × Eligible close s o)
  unfolding gate_close
  close_iff = ground (arith, fresh, listed)

-- An action is allowed if and only if the snapshot is fresh and the action's own conditions hold:
-- the status; the round, where it needs one; the member on the list, where one is named; for
-- contribute and default the deadline and that the member has not contributed, for join that the
-- member has not joined, for a payout at least as many contributions as members.
pub Eligible-iff :
    (a : CircleAction) (s : StateSnapshot) (o : GateOptions) (clock : ℕ)
    → (compute_action_eligibility a s o clock ≡ allowed) ↔ (IsFresh s o clock × Eligible a s o)
unfolding compute_action_eligibility
Eligible-iff join s o clock = join_iff s o clock
Eligible-iff contribute s o clock = contribute_iff s o clock
Eligible-iff payout s o clock = payout_iff s o clock
Eligible-iff default s o clock = default_iff s o clock
Eligible-iff close s o clock = close_iff s o clock
