-- ===== src/Deadline/Laws.antt =====
-- app/src/lib/deadline.ts: what the display of a deadline tells.
use circleup.Prelude.{
  ℕ, ◌+◌, ◌-◌, ◌*◌, ◌/◌, ◌%◌, ◌≤◌, ◌<◌, ◌≡◌, ◌≢◌, ◌↔◌, inl, inr, refl, Bool, true, false, some, ltb,
  leb, ◌==◌, if◌then◌else◌, arith, Bool-cases,
}
use circleup.Deadline.{
  ℤ, minus, is_negative, less, to_seconds, fresh, stale, Urgency, green, red, Human, no_text,
  overdue, due_now, days_hours, hours_minutes, minutes_seconds, only_seconds, split_seconds,
  ledgers_to_human, urgency_of, compute_deadline_display,
}

-- The seconds that a text stands for, and how exact it is.
abbrev pub seconds_of : Human → ℕ
seconds_of no_text = 0
seconds_of overdue = 0
seconds_of due_now = 0
seconds_of (days_hours d h) = d * 86400 + h * 3600
seconds_of (hours_minutes h m) = h * 3600 + m * 60
seconds_of (minutes_seconds m s) = m * 60 + s
seconds_of (only_seconds s) = s

abbrev pub precision_of : Human → ℕ
precision_of (days_hours d h) = 3600
precision_of (hours_minutes h m) = 60
precision_of _ = 1

-- A text and the seconds that are left: rounded down to what is shown.
abbrev pub TellsSeconds : Human → ℕ → Type 0
TellsSeconds h n = (seconds_of h ≤ n) × (n < seconds_of h + precision_of h)

split_seconds-TellsSeconds : (n : ℕ) → TellsSeconds (split_seconds n) n
split_seconds-TellsSeconds n = elim (Bool-cases (ltb 0 (n / 86400))) [
  | inl d ↦ rw d (ground arith)
  | inr d ↦ elim (Bool-cases (ltb 0 (n % 86400 / 3600))) [
    | inl h ↦ rw (d, h) (ground arith)
    | inr h ↦ elim (Bool-cases (ltb 0 (n % 3600 / 60))) [
      | inl m ↦ rw (d, h, m) (ground arith)
      | inr m ↦ rw (d, h, m) (ground arith)
    ]
  ]
]

ledgers_to_human-TellsSeconds :
    (d l : ℕ) → TellsSeconds (ledgers_to_human (minus d l)) ((d - l) * 5)
unfolding ledgers_to_human
ledgers_to_human-TellsSeconds d l = elim (Bool-cases (leb l d)) [
  | inl le ↦ elim (Bool-cases ((d - l) == 0)) [
    | inl same ↦ rw (le, same) (ground arith)
    | inr some_left ↦ rw (le, some_left) (split_seconds-TellsSeconds ((d - l) * 5))
  ]
  | inr past ↦ rw past (ground arith)
]

minus-less : (a b n : ℕ) → (less (minus a b) n ≡ false) ↔ (b + n ≤ a)
minus-less a b n = elim (Bool-cases (leb b a)) [
  | inl le ↦ rw le (ground arith)
  | inr past ↦ rw past (ground arith)
]

overdue_iff : (d l : ℕ) → (is_negative (minus d l) ≡ true) ↔ (d < l)
overdue_iff d l = elim (Bool-cases (leb l d)) [
  | inl le ↦ rw le (ground arith)
  | inr past ↦ rw past (ground arith)
]

stale_iff :
    (is_recent : Bool) → ((if is_recent then fresh else stale) ≡ stale) ↔ (is_recent ≡ false)
stale_iff true = (λ h. ground (arith, h), λ h. ground (arith, h))
stale_iff false = (λ h. refl, λ h. refl)

-- The urgency as the code computes it.
abbrev urgency_shown : ℤ → Urgency
urgency_shown left = if is_negative left then red else urgency_of (to_seconds left)

urgency_iff :
    (d l : ℕ)
    → ((urgency_shown (minus d l) ≡ red) ↔ (d * 5 < l * 5 + 86400))
      × ((urgency_shown (minus d l) ≡ green) ↔ (l * 5 + 172800 ≤ d * 5))
urgency_iff d l = elim (Bool-cases (leb l d)) [
  | inl le ↦ elim (Bool-cases (ltb ((d - l) * 5) 86400)) [
    | inl soon ↦ rw (le, soon) (ground arith, ground arith)
    | inr more ↦ elim (Bool-cases (ltb ((d - l) * 5) 172800)) [
      | inl near ↦ rw (le, more, near) (ground arith, ground arith)
      | inr far ↦ rw (le, more, far) (ground arith, ground arith)
    ]
  ]
  | inr past ↦ rw past (ground arith, ground arith)
]

split_seconds-later : (n : ℕ) → (split_seconds n ≢ overdue) × (split_seconds n ≢ due_now)
split_seconds-later n = elim (Bool-cases (ltb 0 (n / 86400))) [
  | inl d ↦ rw d (λ e. ground (arith, e), λ e. ground (arith, e))
  | inr d ↦ elim (Bool-cases (ltb 0 (n % 86400 / 3600))) [
    | inl h ↦ rw (d, h) (λ e. ground (arith, e), λ e. ground (arith, e))
    | inr h ↦ elim (Bool-cases (ltb 0 (n % 3600 / 60))) [
      | inl m ↦ rw (d, h, m) (λ e. ground (arith, e), λ e. ground (arith, e))
      | inr m ↦ rw (d, h, m) (λ e. ground (arith, e), λ e. ground (arith, e))
    ]
  ]
]

words_iff :
    (d l : ℕ)
    → ((ledgers_to_human (minus d l) ≡ overdue) ↔ (d < l))
      × ((ledgers_to_human (minus d l) ≡ due_now) ↔ (d ≡ l))
unfolding ledgers_to_human
words_iff d l = elim (Bool-cases (leb l d)) [
  | inl le ↦ elim (Bool-cases ((d - l) == 0)) [
    | inl same ↦ rw (le, same) (ground arith, ground arith)
    | inr some_left ↦
        let (not_overdue, not_due) = split_seconds-later ((d - l) * 5) in
        rw (le, some_left)
          (
            (λ e. absurd (not_overdue e), λ h. absurd (ground (arith, h, le))),
            (λ e. absurd (not_due e), λ h. absurd (ground (arith, h, some_left))),
          )
  ]
  | inr past ↦ rw past (ground arith, ground arith)
]

-- What is shown of a deadline and a latest ledger that are known: stale exactly when the data are at
-- least as old as the limit, overdue exactly when the latest ledger is past the deadline, red
-- exactly when less than a day is left at five seconds a ledger, green exactly when two days or more
-- are left; the text is `overdue` exactly past the deadline and `due now` exactly at it, and otherwise
-- the time that is left, rounded down to the last unit it shows.
pub compute_deadline_display_shows :
    (fetched_at_ms now_ms max_data_age_ms d l : ℕ)
    → let shown = compute_deadline_display fetched_at_ms now_ms max_data_age_ms (some d) (some l) in
      ((shown.kind ≡ stale) ↔ (fetched_at_ms + max_data_age_ms ≤ now_ms))
      × ((shown.is_overdue ≡ true) ↔ (d < l))
      × ((shown.urgency ≡ red) ↔ (d * 5 < l * 5 + 86400))
      × ((shown.urgency ≡ green) ↔ (l * 5 + 172800 ≤ d * 5))
      × ((shown.human ≡ overdue) ↔ (d < l))
      × ((shown.human ≡ due_now) ↔ (d ≡ l))
      × TellsSeconds shown.human ((d - l) * 5)
unfolding compute_deadline_display
compute_deadline_display_shows fetched_at_ms now_ms max_data_age_ms d l =
    let (to_old, from_old) = stale_iff (less (minus now_ms fetched_at_ms) max_data_age_ms) in
    let (old_to, old_from) = minus-less now_ms fetched_at_ms max_data_age_ms in
    let (is_red, is_green) = urgency_iff d l in
    let (is_past, is_now) = words_iff d l in
    (
      (λ h. old_to (to_old h), λ h. from_old (old_from h)),
      overdue_iff d l,
      is_red,
      is_green,
      is_past,
      is_now,
      ledgers_to_human-TellsSeconds d l,
    )
