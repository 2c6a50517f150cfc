-- ===== src/Replay.antt =====
-- indexer/src/db/replay.ts: the destructive replay. A derived table is `none` where its migration has
-- not been applied; a row is its ledger and what else it holds, and the ledger is read for the
-- tables that have that column only. Log lines are not modelled, and the statements are taken to
-- succeed: the deletions run in an order that the foreign keys allow.
pub mod Laws
pub mod Twice
pub mod Retry
mod Tests
use circleup.Prelude.{
  ℕ, ◌-◌, String, Bool, true, false, not, ◌||◌, Option, none, some, List, [], ◌∷◌, ◌++◌, length,
  keep, map, ltb, ◌==◌, if◌then◌else◌, str_eq, or_else,
}
use circleup.Prelude.Text.{join, decimal}
use circleup.Ingest.{EventIdentity}

pub data DerivedTable : Type 0 where
  contributions payouts defaults circle_audit_events : DerivedTable
  circle_members reputation circles : DerivedTable

-- LEDGER_SCOPED_TABLES; the others are PRESERVED_IN_PARTIAL.
abbrev pub is_ledger_scoped : DerivedTable → Bool
is_ledger_scoped contributions = true
is_ledger_scoped payouts = true
is_ledger_scoped defaults = true
is_ledger_scoped circle_audit_events = true
is_ledger_scoped _ = false

-- The ledger of a row may be null, in circle_audit_events.
pub record TableRow : Type 0 where
  pub ledger : Option ℕ
  pub content : String

pub record ReplayDb : Type 0 where
  pub tables : DerivedTable → Option (List TableRow)
  pub ingested_events : List EventIdentity
  pub last_ledger : ℕ

-- The modes of the destructive replay.
pub data ReplayMode : Type 0 where
  full partial : ReplayMode

-- A JavaScript number, as far as a ledger is concerned.
pub data LedgerNumber : Type 0 where
  ledger_number : ℕ → LedgerNumber
  no_ledger : LedgerNumber

pub record ReplayOptions : Type 0 where
  pub from_ledger : LedgerNumber
  pub full_wipe : Option Bool
  pub confirm : Option String

pub data ReplayOutcome : Type 0 where
  prepared : (from_ledger : ℕ) (full_wipe : Bool) (events_cleared : ℕ) → ReplayOutcome
  invalid_ledger : ReplayOutcome
  not_confirmed : String → ReplayOutcome

unfoldable pub resolve_replay_mode : ℕ → Bool → ReplayMode
resolve_replay_mode from_ledger full_wipe = if full_wipe || from_ledger == 0 then full else partial

unfoldable pub cursor_after_replay : ℕ → ℕ
cursor_after_replay from_ledger = if from_ledger == 0 then 0 else from_ledger - 1

abbrev pub mode_text : ReplayMode → String
mode_text full = "full"
mode_text partial = "partial"

unfoldable pub replay_confirmation_token : ReplayMode → ℕ → String
unfolding join decimal
replay_confirmation_token mode from_ledger =
    join "-" ("replay" ∷ mode_text mode ∷ "from" ∷ decimal from_ledger ∷ [])

abbrev pub is_confirmed : ReplayMode → ℕ → Option String → Bool
is_confirmed mode from_ledger none = false
is_confirmed mode from_ledger (some text) = str_eq text (replay_confirmation_token mode from_ledger)

-- DELETE FROM table
abbrev pub emptied : Option (List TableRow) → Option (List TableRow)
emptied none = none
emptied (some rows) = some []

-- `ledger >= from_ledger` is not true of the row; of a null it never is.
abbrev pub is_kept : ℕ → Option ℕ → Bool
is_kept from_ledger none = true
is_kept from_ledger (some ledger) = ltb ledger from_ledger

-- DELETE FROM table WHERE ledger >= from_ledger
abbrev pub trimmed : ℕ → Option (List TableRow) → Option (List TableRow)
trimmed from_ledger none = none
trimmed from_ledger (some rows) = some (keep (λ r. is_kept from_ledger r.ledger) rows)

-- `wipeAllDerivedTables` and `wipeFromLedger`
pub wipe_tables :
    ReplayMode → ℕ → (DerivedTable → Option (List TableRow)) → DerivedTable → Option (List TableRow)
wipe_tables full from_ledger tables t = emptied (tables t)
wipe_tables partial from_ledger tables t =
    if is_ledger_scoped t then trimmed from_ledger (tables t) else tables t

-- DELETE FROM ingested_events, all of them from genesis
pub clear_events : ℕ → List EventIdentity → List EventIdentity
clear_events from_ledger rows =
    if from_ledger == 0 then [] else keep (λ r. ltb r.ledger from_ledger) rows

-- The transaction.
pub apply_replay : ReplayMode → ℕ → ReplayDb → ReplayDb
unfolding wipe_tables clear_events cursor_after_replay
apply_replay mode from_ledger db = record {
  tables = wipe_tables mode from_ledger db.tables;
  ingested_events = clear_events from_ledger db.ingested_events;
  last_ledger = cursor_after_replay from_ledger;
}

abbrev pub is_full : ReplayMode → Bool
is_full full = true
is_full partial = false

pub replay_from : ReplayMode → ℕ → Option String → ReplayDb → ReplayDb × ReplayOutcome
unfolding apply_replay replay_confirmation_token
replay_from mode from_ledger confirm db =
    let after = apply_replay mode from_ledger db in
    if is_confirmed mode from_ledger confirm
    then (
      after,
      prepared from_ledger (is_full mode)
          (length db.ingested_events - length after.ingested_events),
    )
    else (db, not_confirmed (replay_confirmation_token mode from_ledger))

abbrev pub replay_number :
    LedgerNumber → Option Bool → Option String → ReplayDb → ReplayDb × ReplayOutcome
replay_number no_ledger full_wipe confirm db = (db, invalid_ledger)
replay_number (ledger_number n) full_wipe confirm db =
    replay_from (resolve_replay_mode n (or_else full_wipe true)) n confirm db

unfoldable pub prepare_replay : ReplayOptions → ReplayDb → ReplayDb × ReplayOutcome
unfolding replay_from resolve_replay_mode
prepare_replay opts db = replay_number opts.from_ledger opts.full_wipe opts.confirm db
