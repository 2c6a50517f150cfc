-- ===== src/Poll/Cycle/Laws.antt =====
-- indexer/src/indexer.ts, `runPollCycle`: the cycle ends, and where it leaves the cursor.
use circleup.Prelude.{
  String, ℕ, zero, suc, ◌+◌, ◌-◌, min, ◌≤◌, ◌<◌, ◌≡◌, refl, ◌⊎◌, inl, inr, true, Option, none, some,
  ltb, leb, if◌then◌else◌, Bool-cases, arith,
}
use mathlib.Core.Path.{subst}
use circleup.Ingest.{Db, Metrics}
use circleup.Rpc.Retry.{Answer, answered, failed, with_rpc_retry}
use circleup.Rpc.Contradiction.{LedgerContradictionEvidence, detect_ledger_sequence_regression}
use circleup.Poll.{
  PollConfig, polled, poll_failed, contradicted, latest_failed, is_batch_error, Sources, batch_end,
}
use circleup.Poll.Ledgers.{Polled, process_events}
use circleup.Poll.Ledgers.Laws.{Advances, process_events_cursor}
use circleup.Poll.Cycle.{
  LatestLedger, halved, after_run, shrink, resume_at, poll_to, poll_between, unless_regressed,
  after_latest, run_poll_cycle,
}

-- A cycle from `last`, with `to` the furthest that it may reach.
module _ {T : Type 0} (last to : ℕ) (db : Db T) where
  abbrev pub Reaches : Polled T → Type 0
  Reaches (db', m', polled seen lost) = (last < db'.last_ledger) × (db'.last_ledger ≤ to)
  Reaches (db', m', poll_failed e) =
      (db' ≡ db) ⊎ ((last < db'.last_ledger) × (db'.last_ledger ≤ to))

  abbrev Ends : Option (Polled T) → Type 0
  Ends o = (r : Polled T) × (o ≡ some r) × Reaches r

  module _ (run : ℕ → Db T → Metrics → Polled T)
      (advances : (end : ℕ) (m : Metrics)
        → last < end
        → Advances (last + 1) end db (run end db m)) where
    after_run-Ends :
        (again : ℕ → Db T → Metrics → Option (Polled T)) (end : ℕ) (ran : Polled T)
        → last < end
        → end ≤ to
        → ((m : Metrics) → last + 1 < end → Ends (again (halved run last end) db m))
        → Advances (last + 1) end db ran
        → Ends (after_run run last again end ran)
    unfolding after_run
    after_run-Ends again end (db', m', polled seen lost) h k more w =
        ((db', m', polled seen lost), refl, (omega (arith, w, h), omega (arith, w, k)))
    after_run-Ends again end (db', m', poll_failed e) h k more w =
        elim (Bool-cases (is_batch_error e)) [
          | inr other ↦ rw other ((db', m', poll_failed e), refl, still w)
          | inl batch ↦ elim (Bool-cases (leb end (last + 1))) [
            | inl least ↦ rw (batch, least) ((db', m', poll_failed e), refl, still w)
            | inr wide ↦ rw (batch, wide, unchanged batch w) (more m' (ground arith))
          ]
        ]
      where
        still :
            Advances (last + 1) end db (db', m', poll_failed e) → Reaches (db', m', poll_failed e)
        still (inl same) = inl same
        still (inr (_, low, high)) = inr (omega (arith, low), omega (arith, high, k))

        unchanged :
            is_batch_error e ≡ true → Advances (last + 1) end db (db', m', poll_failed e) → db' ≡ db
        unchanged batch (inl same) = same
        unchanged batch (inr (hard, _, _)) = ground (arith, batch, hard)

    shrink-Ends :
        (fuel end : ℕ) (m : Metrics)
        → last < end
        → end ≤ to
        → end ≤ last + fuel
        → Ends (shrink run last fuel end db m)
    unfolding shrink
    shrink-Ends zero end m h k f = absurd (omega (arith, h, f))
    shrink-Ends (suc fuel) end m h k f =
        after_run-Ends (shrink run last fuel) end (run end db m) h k
          (λ m' wide.
            shrink-Ends fuel (halved run last end) m' (omega arith) (omega (arith, wide, k))
              (omega (arith, wide, f)))
          (advances end m h)

module _ {T : Type 0} (config : PollConfig) (sources : Sources T) (db : Db T) where
  -- With no ledger above the cursor the database is as it was.
  abbrev pub CycleEnds : LatestLedger → Polled T → Type 0
  CycleEnds latest r =
      ((latest.sequence ≤ resume_at config sources db) × (r.0 ≡ db))
      ⊎ ((resume_at config sources db < latest.sequence)
          × Reaches (resume_at config sources db)
              (min latest.sequence (resume_at config sources db + config.backfill_max_ledgers)) db
              r)

  abbrev pub OnLatest : Metrics → Answer LatestLedger → Polled T → Type 0
  OnLatest m (failed err) r = r ≡ (db, m, poll_failed (latest_failed err))
  OnLatest m (answered latest) r = CycleEnds latest r

  abbrev BetweenEnds : (last to : ℕ) → Option (Polled T) → Type 0
  BetweenEnds last to o =
      (r : Polled T) × (o ≡ some r) × ((to ≤ last → r.0 ≡ db) × (last < to → Reaches last to db r))

  unless_regressed-BetweenEnds :
      (last to : ℕ) (m : Metrics) (rest : Option (Polled T))
      (found : Option LedgerContradictionEvidence)
      → BetweenEnds last to rest
      → BetweenEnds last to (unless_regressed config sources db m rest found)
  unless_regressed-BetweenEnds last to m rest none h = h
  unless_regressed-BetweenEnds last to m rest (some evidence) h =
      ((db, m, poll_failed (contradicted evidence)), refl, (λ _. refl, λ _. inl refl))

  poll_between-BetweenEnds :
      (last to : ℕ) (id : Option String) (m : Metrics)
      → BetweenEnds last to (poll_between config sources last to id db m)
  unfolding poll_between
  poll_between-BetweenEnds last to id m =
      let run = λ (end : ℕ). process_events config sources (last + 1) end in
      unless_regressed-BetweenEnds last to m
        (if ltb last to then shrink run last (to - last) to db m else some (db, m, polled 0 0))
        (detect_ledger_sequence_regression last to id)
        (elim (Bool-cases (ltb last to)) [
          | inl lt ↦
              let (r, e, reached) =
                shrink-Ends last to db run
                  (λ end m' h.
                    process_events_cursor config sources (last + 1) end db m' (omega (arith, h)))
                  (to - last) to m (ground (arith, lt)) (omega arith) (omega arith) in
              rw lt (r, e, (λ h. ground (arith, lt, h), λ _. reached))
          | inr ge ↦ rw ge ((db, m, polled 0 0), refl, (λ _. refl, λ h. ground (arith, ge, h)))
        ])

  poll_to-CycleEnds :
      (m : Metrics) (latest : LatestLedger)
      → 1 ≤ config.backfill_max_ledgers
      → (r : Polled T) × (poll_to config sources db m latest ≡ some r) × CycleEnds latest r
  unfolding poll_to batch_end
  poll_to-CycleEnds m latest h =
      let last = resume_at config sources db in
      let to = min latest.sequence (last + 1 + config.backfill_max_ledgers - 1) in
      let (r, e, (none_new, some_new)) = poll_between-BetweenEnds last to latest.id m in
      let same : to ≡ min latest.sequence (last + config.backfill_max_ledgers) = omega arith in
      (
        r,
        e,
        elim (Bool-cases (ltb last latest.sequence)) [
          | inr low ↦ inl (ground (arith, low), none_new (ground (arith, low)))
          | inl high ↦ inr (
            ground (arith, high),
            subst (λ t. Reaches last t db r) same (some_new (ground (arith, high, h))),
          )
        ],
      )

  after_latest-OnLatest :
      (m : Metrics) (head : Answer LatestLedger)
      → 1 ≤ config.backfill_max_ledgers
      → (r : Polled T) × (after_latest config sources db m head ≡ some r) × OnLatest m head r
  unfolding after_latest
  after_latest-OnLatest m (failed err) h = ((db, m, poll_failed (latest_failed err)), refl, refl)
  after_latest-OnLatest m (answered latest) h = poll_to-CycleEnds m latest h

  -- A poll cycle always ends: the window is halved often enough. If the head cannot be read, nothing
  -- changes. If the head is not above the cursor (which is the configured start ledger where the
  -- stored one is 0), the database is as it was. Otherwise a cycle that succeeds has moved the cursor
  -- forward, to the head and by `backfill_max_ledgers` at most; one that fails has done the same or
  -- left the database as it was. The batch limit is at least 1.
  pub run_poll_cycle_ends :
      (latest : ℕ → Answer LatestLedger) (floor_random : ℕ → ℕ → ℕ) (base_delay_ms max_attempts : ℕ)
      (m : Metrics)
      → 1 ≤ config.backfill_max_ledgers
      → (r : Polled T) × (run_poll_cycle config sources latest floor_random base_delay_ms
            max_attempts db m
          ≡ some r)
        × OnLatest m
            (with_rpc_retry latest floor_random base_delay_ms "getLatestLedger"
              max_attempts).outcome
            r
  unfolding run_poll_cycle
  run_poll_cycle_ends latest floor_random base_delay_ms max_attempts m h =
      after_latest-OnLatest m
        (with_rpc_retry latest floor_random base_delay_ms "getLatestLedger" max_attempts).outcome h
