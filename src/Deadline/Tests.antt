-- ===== src/Deadline/Tests.antt =====
-- Runs of the display of a deadline.
use circleup.Prelude.{ℕ, ◌-◌, ◌+◌, ◌*◌, ◌≤◌, ◌<◌, ◌≡◌, ◌↔◌, refl, true, none, some}
use circleup.Deadline.{
  pos, negsuc, stale, unavailable, green, red, overdue, due_now, days_hours, only_seconds,
  deadline_max_data_age_ms, deadline_approaching, ledgers_to_human, compute_deadline_display,
}
use circleup.Deadline.Laws.{TellsSeconds, compute_deadline_display_shows}

one_ledger : ledgers_to_human (pos 1) ≡ only_seconds 5
unfolding ledgers_to_human
one_ledger = refl

at_the_deadline : ledgers_to_human (pos 0) ≡ due_now
unfolding ledgers_to_human
at_the_deadline = refl

past : ledgers_to_human (negsuc 0) ≡ overdue
unfolding ledgers_to_human
past = refl

a_day_and_an_hour : ledgers_to_human (pos 18000) ≡ days_hours 1 1
unfolding ledgers_to_human
a_day_and_an_hour = refl

missing : (compute_deadline_display 0 1 deadline_max_data_age_ms none (some 5)).kind ≡ unavailable
unfolding compute_deadline_display
missing = refl

near :
    (compute_deadline_display 0 1 deadline_max_data_age_ms (some 20000) (some 0)).label
    ≡ deadline_approaching
unfolding compute_deadline_display
near = refl

compute_deadline_display_shows_example :
    let shown =
      compute_deadline_display 1000 121000 deadline_max_data_age_ms (some 150) (some 100) in
    ((shown.kind ≡ stale) ↔ (1000 + deadline_max_data_age_ms ≤ 121000))
    × ((shown.is_overdue ≡ true) ↔ (150 < 100))
    × ((shown.urgency ≡ red) ↔ (150 * 5 < 100 * 5 + 86400))
    × ((shown.urgency ≡ green) ↔ (100 * 5 + 172800 ≤ 150 * 5))
    × ((shown.human ≡ overdue) ↔ (150 < 100))
    × ((shown.human ≡ due_now) ↔ ◌≡◌ {A = ℕ} 150 100)
    × TellsSeconds shown.human ((150 - 100) * 5)
compute_deadline_display_shows_example =
    compute_deadline_display_shows 1000 121000 deadline_max_data_age_ms 150 100
