-- ===== src/Replay/Laws.antt =====
-- indexer/src/db/replay.ts: what a replay removes, and that the removed events are ingested again.
use circleup.Prelude.{
  some, none, ap, ℕ, ◌+◌, ◌≤◌, ◌<◌, ◌≡◌, refl, ◌⊎◌, inl, inr, String, Bool, true, false, ◌&&◌,
  Option, List, [], ◌∷◌, length, keep, ltb, ◌==◌, str_eq, or_else, arith, All, Bool-cases,
  keep-true, keep-false,
}
use mathlib.Core.Path.{subst}
use circleup.Ingest.{EventIdentity, conflicts, is_ingested}
use circleup.Replay.{
  full, partial, DerivedTable, TableRow, wipe_tables, emptied, trimmed, is_kept, is_ledger_scoped,
  ReplayDb, ReplayMode, LedgerNumber, ledger_number, no_ledger, ReplayOptions, ReplayOutcome,
  prepared, invalid_ledger, not_confirmed, resolve_replay_mode, cursor_after_replay, is_confirmed,
  clear_events, apply_replay, replay_from, replay_number, prepare_replay,
}

-- The rows with the key of `e` are rows of its ledger.
abbrev pub KeyOfLedger : EventIdentity → List EventIdentity → Type 0
KeyOfLedger e = All (λ row. (str_eq row.event_key e.event_key ≡ false) ⊎ (row.ledger ≡ e.ledger))

is_ingested-keep :
    (e : EventIdentity) (from_ledger : ℕ) (rows : List EventIdentity)
    → KeyOfLedger e rows
    → is_ingested e (keep (λ r. ltb r.ledger from_ledger) rows)
      ≡ ltb e.ledger from_ledger && is_ingested e rows
unfolding is_ingested conflicts
is_ingested-keep e from_ledger [] h = ground arith
is_ingested-keep e from_ledger (row ∷ rows) (h, hs) =
    ground (arith, h, is_ingested-keep e from_ledger rows hs)

length-keep :
    (p : EventIdentity → Bool) (rows : List EventIdentity) → length (keep p rows) ≤ length rows
length-keep p [] = omega arith
length-keep p (row ∷ rows) = ground (arith, length-keep p rows)

module _ {A : Type 0} (p : A → Bool) where
  All-keep : (P : A → Type 0) → ((r : A) → p r ≡ true → P r) → (rows : List A) → All P (keep p rows)
  All-keep P holds [] = tt
  All-keep P holds (row ∷ rows) = elim (Bool-cases (p row)) [
    | inl before ↦ rw (keep-true p row rows before) (holds row before, All-keep P holds rows)
    | inr after ↦ rw (keep-false p row rows after) (All-keep P holds rows)
  ]

  pub keep-keep : (rows : List A) → keep p (keep p rows) ≡ keep p rows
  keep-keep [] = refl
  keep-keep (row ∷ rows) = elim (Bool-cases (p row)) [
    | inl before ↦
        rw (keep-true p row rows before, keep-true p row (keep p rows) before)
          (ap (λ kept. row ∷ kept) (keep-keep rows))
    | inr after ↦ rw (keep-false p row rows after) (keep-keep rows)
  ]

clear_events-All :
    (from_ledger : ℕ) (rows : List EventIdentity)
    → All (λ r. r.ledger < from_ledger) (clear_events from_ledger rows)
unfolding clear_events
clear_events-All from_ledger rows = elim (Bool-cases (from_ledger == 0)) [
  | inl genesis ↦ rw genesis tt
  | inr later ↦
      rw later (
        All-keep (λ (r : EventIdentity). ltb r.ledger from_ledger) _ (λ r h. ground (arith, h))
          rows)
]

length-clear_events :
    (from_ledger : ℕ) (rows : List EventIdentity)
    → length (clear_events from_ledger rows) ≤ length rows
unfolding clear_events
length-clear_events from_ledger rows =
    ground (arith, length-keep (λ r. ltb r.ledger from_ledger) rows)

is_ingested-clear_events :
    (e : EventIdentity) (from_ledger : ℕ) (rows : List EventIdentity)
    → KeyOfLedger e rows
    → is_ingested e (clear_events from_ledger rows) ≡ ltb e.ledger from_ledger && is_ingested e rows
unfolding clear_events is_ingested
is_ingested-clear_events e from_ledger rows h =
    ground (arith, is_ingested-keep e from_ledger rows h)

-- The ledger is an earlier one, or null.
abbrev pub IsBefore : Option ℕ → ℕ → Type 0
IsBefore none n = Unit
IsBefore (some ledger) n = ledger < n

is_kept-IsBefore : (n : ℕ) (o : Option ℕ) → is_kept n o ≡ true → IsBefore o n
is_kept-IsBefore n none h = tt
is_kept-IsBefore n (some ledger) h = ground (arith, h)

abbrev pub rows_of : Option (List TableRow) → List TableRow
rows_of none = []
rows_of (some rows) = rows

wipe_tables-All :
    (mode : ReplayMode) (n : ℕ) (tables : DerivedTable → Option (List TableRow)) (t : DerivedTable)
    → is_ledger_scoped t ≡ true
    → All (λ r. IsBefore r.ledger n) (rows_of (wipe_tables mode n tables t))
unfolding wipe_tables
wipe_tables-All full n tables t h = emptied-All (tables t)
  where
    emptied-All :
        (table : Option (List TableRow)) → All (λ r. IsBefore r.ledger n) (rows_of (emptied table))
    emptied-All none = tt
    emptied-All (some rows) = tt
wipe_tables-All partial n tables t h = rw h (trimmed-All (tables t))
  where
    trimmed-All :
        (table : Option (List TableRow))
        → All (λ r. IsBefore r.ledger n) (rows_of (trimmed n table))
    trimmed-All none = tt
    trimmed-All (some rows) =
        All-keep (λ (r : TableRow). is_kept n r.ledger) _ (λ r h. is_kept-IsBefore n r.ledger h)
          rows

-- What a replay from `n` leaves: the cursor just before `n`, and rows of earlier ledgers only, of
-- the dedup table and, but for rows without a ledger, of each table with a ledger.
abbrev pub Reset : ReplayDb → ℕ → ReplayDb → Type 0
Reset db n db' =
    (((n ≡ 0) × (db'.last_ledger ≡ 0)) ⊎ (db'.last_ledger + 1 ≡ n))
    × All (λ r. r.ledger < n) db'.ingested_events
    × ((t : DerivedTable)
        → is_ledger_scoped t ≡ true
        → All (λ r. IsBefore r.ledger n) (rows_of (db'.tables t)))

abbrev pub OnOutcome : ReplayOptions → ReplayDb → ReplayDb → ReplayOutcome → Type 0
OnOutcome opts db db' (prepared n wiped cleared) =
    (opts.from_ledger ≡ ledger_number n)
    × (is_confirmed (resolve_replay_mode n (or_else opts.full_wipe true)) n opts.confirm ≡ true)
    × Reset db n db'
    × (cleared + length db'.ingested_events ≡ length db.ingested_events)
OnOutcome opts db db' invalid_ledger = (db' ≡ db) × (opts.from_ledger ≡ no_ledger)
OnOutcome opts db db' (not_confirmed token) = db' ≡ db

apply_replay-Reset :
    (mode : ReplayMode) (n : ℕ) (db : ReplayDb) → Reset db n (apply_replay mode n db)
unfolding apply_replay cursor_after_replay
apply_replay-Reset mode n db =
    (ground arith, clear_events-All n db.ingested_events, wipe_tables-All mode n db.tables)

length-apply_replay :
    (mode : ReplayMode) (n : ℕ) (db : ReplayDb)
    → length (apply_replay mode n db).ingested_events ≤ length db.ingested_events
unfolding apply_replay
length-apply_replay mode n db = length-clear_events n db.ingested_events

replay_number-OnOutcome :
    (opts : ReplayOptions) (db : ReplayDb) (from_ledger : LedgerNumber)
    → opts.from_ledger ≡ from_ledger
    → let (db', outcome) = replay_number from_ledger opts.full_wipe opts.confirm db in
      OnOutcome opts db db' outcome
unfolding replay_from
replay_number-OnOutcome opts db no_ledger e = (refl, e)
replay_number-OnOutcome opts db (ledger_number n) e =
    let mode = resolve_replay_mode n (or_else opts.full_wipe true) in
    elim (Bool-cases (is_confirmed mode n opts.confirm)) [
      | inl yes_confirmed ↦ rw yes_confirmed (
        e,
        yes_confirmed,
        apply_replay-Reset mode n db,
        omega (arith, length-apply_replay mode n db),
      )
      | inr no_confirmed ↦ rw no_confirmed refl
    ]

-- A replay runs only for a ledger and only with the confirmation of its own plan; otherwise the
-- database is as it was. A replay that runs leaves rows of earlier ledgers only, of the dedup table
-- and, but for rows whose ledger is null, of each table with a ledger; it reports how many dedup
-- rows it removed, and puts the cursor just before the ledger, or at 0 from genesis.
pub prepare_replay_lem :
    (opts : ReplayOptions) (db : ReplayDb)
    → let (db', outcome) = prepare_replay opts db in OnOutcome opts db db' outcome
unfolding prepare_replay
prepare_replay_lem opts db = replay_number-OnOutcome opts db opts.from_ledger refl

module _ (db : ReplayDb) (e : EventIdentity) (keys : KeyOfLedger e db.ingested_events) where
  abbrev Reopened : ReplayDb → ReplayOutcome → Type 0
  Reopened db' (prepared n wiped cleared) =
      is_ingested e db'.ingested_events ≡ ltb e.ledger n && is_ingested e db.ingested_events
  Reopened db' invalid_ledger = Unit
  Reopened db' (not_confirmed token) = Unit

  apply_replay-ingested :
      (mode : ReplayMode) (n : ℕ)
      → is_ingested e (apply_replay mode n db).ingested_events
        ≡ ltb e.ledger n && is_ingested e db.ingested_events
  unfolding apply_replay
  apply_replay-ingested mode n = is_ingested-clear_events e n db.ingested_events keys

  replay_number-Reopened :
      (from_ledger : LedgerNumber) (full_wipe : Option Bool) (confirm : Option String)
      → let (db', outcome) = replay_number from_ledger full_wipe confirm db in Reopened db' outcome
  unfolding replay_from
  replay_number-Reopened no_ledger full_wipe confirm = tt
  replay_number-Reopened (ledger_number n) full_wipe confirm =
      let mode = resolve_replay_mode n (or_else full_wipe true) in
      elim (Bool-cases (is_confirmed mode n confirm)) [
        | inl yes_confirmed ↦ rw yes_confirmed (apply_replay-ingested mode n)
        | inr no_confirmed ↦ rw no_confirmed tt
      ]

-- The events of a replayed range are ingested again: after a replay from `n`, an event is known if and
-- only if it was known before and lies in an earlier ledger. Its key must not be the key of an event
-- of another ledger.
pub prepare_replay_reopens :
    (opts : ReplayOptions) (db : ReplayDb) (e : EventIdentity) (n cleared : ℕ) (wiped : Bool)
    → (prepare_replay opts db).1 ≡ prepared n wiped cleared
    → KeyOfLedger e db.ingested_events
    → is_ingested e (prepare_replay opts db).0.ingested_events
      ≡ ltb e.ledger n && is_ingested e db.ingested_events
unfolding prepare_replay
prepare_replay_reopens opts db e n cleared wiped same keys =
    subst (Reopened db e keys (prepare_replay opts db).0) same
      (replay_number-Reopened db e keys opts.from_ledger opts.full_wipe opts.confirm)
