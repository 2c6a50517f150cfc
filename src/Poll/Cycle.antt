-- ===== src/Poll/Cycle.antt =====
-- indexer/src/indexer.ts, `runPollCycle`: the window of one poll, and its halving when the fetch runs
-- out of its budget. The progress that the health check reports is not modelled. The loop recurs on
-- fuel; the distance of the window's end from the cursor is enough.
pub mod Laws
pub mod Tables
use circleup.Prelude.{
  ℕ, zero, suc, ◌+◌, ◌-◌, ◌/◌, max, String, Bool, true, false, not, ◌||◌, Option, none, some, ltb,
  leb, ◌==◌, if◌then◌else◌,
}
use circleup.Ingest.{Db, Metrics}
use circleup.Rpc.Retry.{Answer, answered, failed, with_rpc_retry}
use circleup.Rpc.Contradiction.{LedgerContradictionEvidence, detect_ledger_sequence_regression}
use circleup.Poll.{
  PollConfig, PollResult, polled, poll_failed, PollError, contradicted, latest_failed,
  is_batch_error, Sources, batch_end,
}
use circleup.Poll.Ledgers.{Polled, process_events}

pub record LatestLedger : Type 0 where
  pub id : Option String
  pub sequence : ℕ

module _ {T : Type 0} (run : ℕ → Db T → Metrics → Polled T) (last_ledger : ℕ) where
  -- `end = lastLedger + Math.max(1, Math.floor((end - lastLedger) / 2))`
  abbrev pub halved : ℕ → ℕ
  halved end = last_ledger + max 1 ((end - last_ledger) / 2)

  pub after_run : (ℕ → Db T → Metrics → Option (Polled T)) → ℕ → Polled T → Option (Polled T)
  after_run again end (db, m, polled seen lost) = some (db, m, polled seen lost)
  after_run again end (db, m, poll_failed e) =
      if not (is_batch_error e) || leb end (last_ledger + 1)
      then some (db, m, poll_failed e)
      else again (halved end) db m

  pub shrink : ℕ → ℕ → Db T → Metrics → Option (Polled T)
  unfolding after_run
  shrink zero end db m = none
  shrink (suc fuel) end db m = after_run (shrink fuel) end (run end db m)

module _ {T : Type 0} (config : PollConfig) (sources : Sources T) where
  -- `let lastLedger = await getLastLedger(); if (lastLedger === 0) lastLedger = START_LEDGER;`
  abbrev pub resume_at : Db T → ℕ
  resume_at db = if db.last_ledger == 0 then config.start_ledger else db.last_ledger

  abbrev pub unless_regressed :
      Db T → Metrics → Option (Polled T) → Option LedgerContradictionEvidence → Option (Polled T)
  unless_regressed db m rest none = rest
  unless_regressed db m rest (some evidence) = some (db, m, poll_failed (contradicted evidence))

  -- From the cursor `last` to the end `to` of the batch.
  pub poll_between : (last to : ℕ) → Option String → Db T → Metrics → Option (Polled T)
  unfolding shrink process_events detect_ledger_sequence_regression
  poll_between last to id db m =
      let run =
        shrink (λ end. process_events config sources (last + 1) end) last (to - last) to db m in
      unless_regressed db m (if ltb last to then run else some (db, m, polled 0 0))
        (detect_ledger_sequence_regression last to id)

  pub poll_to : Db T → Metrics → LatestLedger → Option (Polled T)
  unfolding poll_between batch_end
  poll_to db m latest =
      poll_between (resume_at db)
        (batch_end (resume_at db + 1) latest.sequence config.backfill_max_ledgers) latest.id db m

  pub after_latest : Db T → Metrics → Answer LatestLedger → Option (Polled T)
  unfolding poll_to
  after_latest db m (failed err) = some (db, m, poll_failed (latest_failed err))
  after_latest db m (answered latest) = poll_to db m latest

  unfoldable pub run_poll_cycle :
      (ℕ → Answer LatestLedger)
      → (ℕ → ℕ → ℕ)
      → (base_delay_ms max_attempts : ℕ) → Db T
      → Metrics
      → Option (Polled T)
  unfolding after_latest with_rpc_retry
  run_poll_cycle latest floor_random base_delay_ms max_attempts db m =
      after_latest db m
        (with_rpc_retry latest floor_random base_delay_ms "getLatestLedger" max_attempts).outcome
