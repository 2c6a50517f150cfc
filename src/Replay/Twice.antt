-- ===== src/Replay/Twice.antt =====
-- indexer/src/db/replay.ts: a replay that is prepared twice.
use circleup.Prelude.{
  some, none, ap, ℕ, ◌≡◌, refl, inl, inr, String, Bool, true, Option, List, ltb, ◌==◌, or_else,
  Bool-cases,
}
use circleup.Ingest.{EventIdentity}
use circleup.Replay.{
  full, partial, DerivedTable, TableRow, wipe_tables, emptied, trimmed, is_kept, is_ledger_scoped,
  ReplayDb, ReplayMode, LedgerNumber, ledger_number, no_ledger, ReplayOptions, resolve_replay_mode,
  cursor_after_replay, is_confirmed, clear_events, apply_replay, replay_from, replay_number,
  prepare_replay,
}
use circleup.Replay.Laws.{keep-keep}

module _ (mode : ReplayMode) (n : ℕ) where
  emptied-emptied : (table : Option (List TableRow)) → emptied (emptied table) ≡ emptied table
  emptied-emptied none = refl
  emptied-emptied (some rows) = refl

  trimmed-trimmed : (table : Option (List TableRow)) → trimmed n (trimmed n table) ≡ trimmed n table
  trimmed-trimmed none = refl
  trimmed-trimmed (some rows) = ap some (keep-keep (λ (r : TableRow). is_kept n r.ledger) rows)

  clear_events-clear_events :
      (rows : List EventIdentity) → clear_events n (clear_events n rows) ≡ clear_events n rows
  unfolding clear_events
  clear_events-clear_events rows = elim (Bool-cases (n == 0)) [
    | inl genesis ↦ rw genesis refl
    | inr later ↦ rw later (keep-keep (λ (r : EventIdentity). ltb r.ledger n) rows)
  ]

wipe_tables-wipe_tables :
    (mode : ReplayMode) (n : ℕ) (tables : DerivedTable → Option (List TableRow)) (t : DerivedTable)
    → wipe_tables mode n (wipe_tables mode n tables) t ≡ wipe_tables mode n tables t
unfolding wipe_tables
wipe_tables-wipe_tables full n tables t = emptied-emptied full n (tables t)
wipe_tables-wipe_tables partial n tables t = elim (Bool-cases (is_ledger_scoped t)) [
  | inl scoped ↦ rw scoped (trimmed-trimmed partial n (tables t))
  | inr preserved ↦ rw preserved refl
]

apply_replay-apply_replay :
    (mode : ReplayMode) (n : ℕ) (db : ReplayDb)
    → apply_replay mode n (apply_replay mode n db) ≡ apply_replay mode n db
unfolding apply_replay
apply_replay-apply_replay mode n db = λ i. record {
  tables = λ t. wipe_tables-wipe_tables mode n db.tables t i;
  ingested_events = clear_events-clear_events mode n db.ingested_events i;
  last_ledger = cursor_after_replay n;
}

replay_number-replay_number :
    (from_ledger : LedgerNumber) (full_wipe : Option Bool) (confirm : Option String) (db : ReplayDb)
    → (replay_number from_ledger full_wipe confirm
        (replay_number from_ledger full_wipe confirm db).0).0
      ≡ (replay_number from_ledger full_wipe confirm db).0
unfolding replay_from
replay_number-replay_number no_ledger full_wipe confirm db = refl
replay_number-replay_number (ledger_number n) full_wipe confirm db =
    let mode = resolve_replay_mode n (or_else full_wipe true) in
    elim (Bool-cases (is_confirmed mode n confirm)) [
      | inl yes_confirmed ↦ rw yes_confirmed (apply_replay-apply_replay mode n db)
      | inr no_confirmed ↦ rw no_confirmed refl
    ]

-- A replay is idempotent: to prepare the same plan a second time changes nothing, whether the first
-- time ran or was refused.
pub prepare_replay-prepare_replay :
    (opts : ReplayOptions) (db : ReplayDb)
    → (prepare_replay opts (prepare_replay opts db).0).0 ≡ (prepare_replay opts db).0
unfolding prepare_replay
prepare_replay-prepare_replay opts db =
    replay_number-replay_number opts.from_ledger opts.full_wipe opts.confirm db
