-- ===== src/Poll/Ledgers.antt =====
-- indexer/src/indexer.ts, `processEvents`, steps 7 to 9: the ledgers of a window in ascending order,
-- each in its own transaction, and the checkpoint of the window's end.
pub mod Laws
pub mod Tables
use circleup.Prelude.{ℕ, ◌+◌, Bool, true, false, List, [], ◌∷◌, map, ltb, if◌then◌else◌}
use circleup.Rounds.{group_by_round_index, rows_at, keys, sort_by}
use circleup.Ingest.{EventHandler, Db, Metrics, LedgerResult, returned, raised, process_ledger}
use circleup.Poll.{
  PollConfig, PollResult, polled, poll_failed, stopped, handler_failed, Routed, Sources,
}
use circleup.Poll.Gather.{Gathered, gathered, gather_failed, gather, route_all, sort_routed}

abbrev pub ledger_of : {T : Type 0} → Routed T → ℕ
ledger_of r = r.source.ledger

abbrev pub Polled : Type 0 → Type 0
Polled T = Db T × Metrics × PollResult

module _ {T : Type 0} (sources : Sources T) (to_ledger : ℕ) where
  -- The trailing checkpoint. Its ledger has no events.
  pub trailing : (last_event_ledger seen failed : ℕ) → Db T → Metrics → Polled T
  unfolding process_ledger
  trailing last_event_ledger seen failed db m =
      let (db', m', r) = process_ledger to_ledger [] db m in
      if sources.stop_trailing
      then (db, m, poll_failed stopped)
      else if ltb last_event_ledger to_ledger
      then elim r [
        | returned p f ↦ (db', m', polled seen failed)
        | raised err ↦ (db', m', poll_failed (handler_failed err))
      ]
      else (db, m, polled seen failed)

  -- After one ledger: its counts are added, or its error ends the poll.
  pub after_ledger :
      (ℕ → ℕ → Db T → Metrics → Polled T) → ℕ → ℕ → Db T × Metrics × LedgerResult → Polled T
  after_ledger rest seen failed (db, m, returned p f) = rest (seen + p) (failed + f) db m
  after_ledger rest seen failed (db, m, raised err) = (db, m, poll_failed (handler_failed err))

  module _ (items_at : ℕ → List (EventHandler T)) where
    pub run_ledgers :
        (last_event_ledger : ℕ) → List ℕ → (seen failed : ℕ) → Db T → Metrics → Polled T
    unfolding after_ledger process_ledger trailing
    run_ledgers last [] seen failed db m = trailing last seen failed db m
    run_ledgers last (l ∷ ls) seen failed db m =
        let ran =
          after_ledger (run_ledgers l ls) seen failed (process_ledger l (items_at l) db m) in
        if sources.stop_ledger l then (db, m, poll_failed stopped) else ran

module _ {T : Type 0} (config : PollConfig) (sources : Sources T) (from_ledger to_ledger : ℕ) where
  -- Steps 5 to 9 on the events that were gathered.
  pub run_window : Db T → Metrics → Gathered → Polled T
  unfolding run_ledgers route_all sort_routed group_by_round_index rows_at keys sort_by
  run_window db m (gather_failed e) = (db, m, poll_failed e)
  run_window db m (gathered events) =
      let by_ledger =
        group_by_round_index ledger_of (sort_routed sources (route_all sources events)) in
      run_ledgers sources to_ledger (λ l. map (λ r. r.item) (rows_at l by_ledger)) 0
        (sort_by (λ l. l) (keys by_ledger)) 0 0 db m

  unfoldable pub process_events : Db T → Metrics → Polled T
  unfolding run_window gather
  process_events db m = run_window db m (gather config sources from_ledger to_ledger db.tables)
