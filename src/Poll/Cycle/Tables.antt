-- ===== src/Poll/Cycle/Tables.antt =====
-- indexer/src/indexer.ts, `runPollCycle`: what every routed handler keeps of the tables, a poll cycle
-- keeps.
use circleup.Prelude.{
  ℕ, zero, suc, ◌+◌, ◌-◌, ◌≤◌, String, Option, none, some, ltb, leb, not, ◌||◌, if◌then◌else◌, ◌≡◌,
  inl, inr, Bool-cases,
}
use mathlib.Core.Path.{subst}
use circleup.Rpc.Retry.{Answer, answered, failed, with_rpc_retry}
use circleup.Rpc.Contradiction.{LedgerContradictionEvidence, detect_ledger_sequence_regression}
use circleup.Ingest.{Db, Metrics}
use circleup.Poll.{PollConfig, polled, poll_failed, is_batch_error, Sources, batch_end}
use circleup.Poll.Ledgers.{Polled, process_events}
use circleup.Poll.Ledgers.Tables.{Routes, process_events-Holds}
use circleup.Poll.Cycle.{
  LatestLedger, halved, after_run, shrink, resume_at, poll_to, poll_between, unless_regressed,
  after_latest, run_poll_cycle,
}
use circleup.Poll.Cycle.Laws.{run_poll_cycle_ends}

module _ {T : Type 0} (P : T → Type 0) where
  -- The tables that a cycle leaves, if its fuel was enough.
  abbrev OnSome : Option (Polled T) → Type 0
  OnSome none = Unit
  OnSome (some r) = P r.0.tables

  module _ (run : ℕ → Db T → Metrics → Polled T)
      (runs : (end : ℕ) (db : Db T) (m : Metrics) → P db.tables → P (run end db m).0.tables)
      (last : ℕ) where
    after_run-OnSome :
        (again : ℕ → Db T → Metrics → Option (Polled T))
        → ((end : ℕ) (db : Db T) (m : Metrics) → P db.tables → OnSome (again end db m))
        → (end : ℕ) (r : Polled T) → P r.0.tables
        → OnSome (after_run run last again end r)
    unfolding after_run
    after_run-OnSome again k end (db, m, polled seen lost) p = p
    after_run-OnSome again k end (db, m, poll_failed e) p =
        elim (Bool-cases (not (is_batch_error e) || leb end (last + 1))) [
          | inl b ↦ rw b p
          | inr b ↦ rw b (k (halved run last end) db m p)
        ]

    shrink-OnSome :
        (fuel end : ℕ) (db : Db T) (m : Metrics)
        → P db.tables
        → OnSome (shrink run last fuel end db m)
    unfolding shrink
    shrink-OnSome zero end db m p = tt
    shrink-OnSome (suc fuel) end db m p =
        after_run-OnSome (shrink run last fuel) (shrink-OnSome fuel) end (run end db m)
          (runs end db m p)

  module _ (config : PollConfig) (sources : Sources T) (routes : Routes P sources) (db : Db T)
      (m : Metrics) (p : P db.tables) where
    unless_regressed-OnSome :
        (rest : Option (Polled T)) (found : Option LedgerContradictionEvidence)
        → OnSome rest
        → OnSome (unless_regressed config sources db m rest found)
    unless_regressed-OnSome rest none h = h
    unless_regressed-OnSome rest (some evidence) h = p

    poll_between-OnSome :
        (last to : ℕ) (id : Option String) → OnSome (poll_between config sources last to id db m)
    unfolding poll_between
    poll_between-OnSome last to id =
        let run = λ (end : ℕ). process_events config sources (last + 1) end in
        unless_regressed-OnSome
          (if ltb last to then shrink run last (to - last) to db m else some (db, m, polled 0 0))
          (detect_ledger_sequence_regression last to id)
          (elim (Bool-cases (ltb last to)) [
            | inl lt ↦ rw lt (
                shrink-OnSome run
                  (λ end. process_events-Holds P sources routes config (last + 1) end) last
                  (to - last) to db m p)
            | inr ge ↦ rw ge p
          ])

    after_latest-OnSome :
        (head : Answer LatestLedger) → OnSome (after_latest config sources db m head)
    unfolding after_latest poll_to
    after_latest-OnSome (failed err) = p
    after_latest-OnSome (answered latest) =
        poll_between-OnSome (resume_at config sources db)
          (batch_end (resume_at config sources db + 1) latest.sequence config.backfill_max_ledgers)
          latest.id

    run_poll_cycle-OnSome :
        (latest : ℕ → Answer LatestLedger) (floor_random : ℕ → ℕ → ℕ)
        (base_delay_ms max_attempts : ℕ)
        → OnSome (run_poll_cycle config sources latest floor_random base_delay_ms max_attempts db m)
    unfolding run_poll_cycle
    run_poll_cycle-OnSome latest floor_random base_delay_ms max_attempts =
        after_latest-OnSome
          (with_rpc_retry latest floor_random base_delay_ms "getLatestLedger" max_attempts).outcome

    -- A property of the tables that every routed handler keeps holds of the tables that a poll cycle
    -- leaves, if it holds of those that it found; the cycle ends. The batch limit is at least 1.
    pub run_poll_cycle-keeps :
        (latest : ℕ → Answer LatestLedger) (floor_random : ℕ → ℕ → ℕ)
        (base_delay_ms max_attempts : ℕ)
        → 1 ≤ config.backfill_max_ledgers
        → (r : Polled T) × (run_poll_cycle config sources latest floor_random base_delay_ms
              max_attempts db m
            ≡ some r)
          × P r.0.tables
    run_poll_cycle-keeps latest floor_random base_delay_ms max_attempts h =
        let (r, e, _) =
          run_poll_cycle_ends config sources db latest floor_random base_delay_ms max_attempts m
            h in
        (
          r,
          e,
          subst OnSome e (run_poll_cycle-OnSome latest floor_random base_delay_ms max_attempts),
        )
