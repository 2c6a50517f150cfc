-- ===== src/Deadline.antt =====
-- app/src/lib/deadline.ts: how the deadline of a round is shown, from ledgers of the indexer.
-- A text is its numbers, and a label its first part: the note that follows says no more than `kind`.
-- `checkpointTime`, passed on as it is, and `isEstimate`, always true, are left out. Times are in
-- milliseconds.
pub mod Laws
mod Tests
use circleup.Prelude.{
  ℕ, zero, suc, ◌+◌, ◌-◌, ◌*◌, ◌/◌, ◌%◌, String, Bool, true, false, Option, none, some, ltb, leb,
  ◌==◌, ◌||◌, if◌then◌else◌,
}

-- The integers: `negsuc n` is -(n + 1).
pub data ℤ : Type 0 where
  pos negsuc : ℕ → ℤ

-- `a - b`
abbrev pub minus : ℕ → ℕ → ℤ
minus a b = if leb b a then pos (a - b) else negsuc (b - a - 1)

abbrev pub is_negative : ℤ → Bool
is_negative (pos n) = false
is_negative (negsuc n) = true

abbrev pub less : ℤ → ℕ → Bool
less (pos m) n = ltb m n
less (negsuc m) n = true

-- DEADLINE_MAX_DATA_AGE_MS
abbrev pub deadline_max_data_age_ms : ℕ
deadline_max_data_age_ms = 120000

-- SECONDS_PER_LEDGER
abbrev pub seconds_per_ledger : ℕ
seconds_per_ledger = 5

-- `ledgersRemaining * SECONDS_PER_LEDGER`
abbrev pub to_seconds : ℤ → ℤ
to_seconds (pos n) = pos (n * seconds_per_ledger)
to_seconds (negsuc n) = negsuc (n * seconds_per_ledger + 4)

pub data DeadlineDataKind : Type 0 where
  fresh stale unavailable : DeadlineDataKind

pub data Urgency : Type 0 where
  green yellow red : Urgency

pub data Human : Type 0 where
  no_text overdue due_now : Human
  days_hours hours_minutes minutes_seconds : ℕ → ℕ → Human
  only_seconds : ℕ → Human

abbrev pub split_seconds : ℕ → Human
split_seconds total =
    if ltb 0 (total / 86400)
    then days_hours (total / 86400) (total % 86400 / 3600)
    else if ltb 0 (total % 86400 / 3600)
    then hours_minutes (total % 86400 / 3600) (total % 3600 / 60)
    else if ltb 0 (total % 3600 / 60)
    then minutes_seconds (total % 3600 / 60) (total % 60)
    else only_seconds (total % 60)

unfoldable pub ledgers_to_human : ℤ → Human
ledgers_to_human (negsuc n) = overdue
ledgers_to_human (pos n) = if n == 0 then due_now else split_seconds (n * seconds_per_ledger)

pub data Label : Type 0 where
  not_available payout_overdue deadline_approaching time_remaining : Label

pub record DeadlineDisplay : Type 0 where
  pub kind : DeadlineDataKind
  pub ledgers_remaining : Option ℤ
  pub seconds_remaining : Option ℤ
  pub human : Human
  pub is_overdue : Bool
  pub urgency : Urgency
  pub label : Label
  pub data_age_ms : Option ℤ

abbrev pub urgency_of : ℤ → Urgency
urgency_of seconds =
    if less seconds 86400 then red else if less seconds 172800 then yellow else green

abbrev pub label_of : Bool → Urgency → Label
label_of true u = payout_overdue
label_of false yellow = deadline_approaching
label_of false u = time_remaining

module _ (fetched_at_ms now_ms max_data_age_ms : ℕ) where
  abbrev display_of : ℤ → DeadlineDisplay
  display_of left = record {
    kind = if less (minus now_ms fetched_at_ms) max_data_age_ms then fresh else stale;
    ledgers_remaining = some left;
    seconds_remaining = some (to_seconds left);
    human = ledgers_to_human left;
    is_overdue = is_negative left;
    urgency = if is_negative left then red else urgency_of (to_seconds left);
    label =
        label_of (is_negative left)
          (if is_negative left then red else urgency_of (to_seconds left));
    data_age_ms = some (minus now_ms fetched_at_ms);
  }

  unfoldable pub compute_deadline_display : Option ℕ → Option ℕ → DeadlineDisplay
  compute_deadline_display (some deadline_ledger) (some latest_ledger) =
      display_of (minus deadline_ledger latest_ledger)
  compute_deadline_display _ _ = record {
    kind = unavailable;
    ledgers_remaining = none;
    seconds_remaining = none;
    human = no_text;
    is_overdue = false;
    urgency = green;
    label = not_available;
    data_age_ms = none;
  }
