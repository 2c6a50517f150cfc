-- ===== src/Replay/Tests.antt =====
-- indexer/src/db/replay.ts: a partial replay from ledger 8.
use circleup.Prelude.{ℕ, String, ◌≡◌, refl, false, ◌&&◌, some, List, [], ◌∷◌, ltb, inl, inr}
use circleup.Ingest.{EventIdentity, is_ingested}
use circleup.Replay.{
  ReplayDb, TableRow, ReplayOptions, ledger_number, prepared, prepare_replay,
  replay_confirmation_token, partial,
}
use circleup.Replay.Twice.{prepare_replay-prepare_replay}
use circleup.Replay.Laws.{KeyOfLedger, OnOutcome, prepare_replay_lem, prepare_replay_reopens}

abbrev event_in : ℕ → String → EventIdentity
event_in ledger key = record {
  event_key = key;
  contract_id = some "CA";
  ledger = ledger;
  tx_hash = some key;
  event_type = "circle/joined";
  event_index = some 0;
  failure_id = key;
}

abbrev one_row : List TableRow
one_row = record { ledger = some 9; content = "row" } ∷ []

abbrev indexed : ReplayDb
indexed = record {
  tables = λ t. some one_row;
  ingested_events = event_in 9 "b" ∷ event_in 7 "a" ∷ [];
  last_ledger = 9;
}

abbrev from_eight : ReplayOptions
from_eight = record {
  from_ledger = ledger_number 8;
  full_wipe = some false;
  confirm = some "replay-partial-from-8";
}

token_of_eight : replay_confirmation_token partial 8 ≡ "replay-partial-from-8"
unfolding replay_confirmation_token
token_of_eight = refl

replay_runs : (prepare_replay from_eight indexed).1 ≡ prepared 8 false 1
unfolding prepare_replay
replay_runs = refl

prepare_replay_lem_example :
    let (db', outcome) = prepare_replay from_eight indexed in
    OnOutcome from_eight indexed db' outcome
prepare_replay_lem_example = prepare_replay_lem from_eight indexed

keys-KeyOfLedger : KeyOfLedger (event_in 9 "b") indexed.ingested_events
keys-KeyOfLedger = (inr refl, (inl refl, tt))

prepare_replay_reopens_example :
    is_ingested (event_in 9 "b") (prepare_replay from_eight indexed).0.ingested_events
    ≡ ltb 9 8 && is_ingested (event_in 9 "b") indexed.ingested_events
prepare_replay_reopens_example =
    prepare_replay_reopens from_eight indexed (event_in 9 "b") 8 1 false replay_runs
      keys-KeyOfLedger

prepare_replay-prepare_replay_example :
    (prepare_replay from_eight (prepare_replay from_eight indexed).0).0
    ≡ (prepare_replay from_eight indexed).0
prepare_replay-prepare_replay_example = prepare_replay-prepare_replay from_eight indexed
