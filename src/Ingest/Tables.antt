-- ===== src/Ingest/Tables.antt =====
-- indexer/src/indexer.ts, `processLedger`: what every handler keeps of the tables, a ledger keeps.
use circleup.Prelude.{ℕ, ◌≡◌, List, All}
use circleup.Ingest.{
  done, EventHandler, Db, Metrics, Batch, Attempt, go_on, abort, LoopEnd, ended, aborted, run_items,
  start, conclude, process_ledger,
}
use circleup.Ingest.Cases.{
  Outcome, was_known, was_stored, was_recorded, was_aborted, OnEnd, loop_rule,
}

module _ {T : Type 0} (P : T → Type 0) where
  -- What the handler leaves when it does not throw.
  abbrev pub Keeps : EventHandler T → Type 0
  Keeps item = (t t' : T) → P t → item.handler t ≡ done t' → P t'

  abbrev Kept : List (EventHandler T) → Batch T → Batch T → Type 0
  Kept items b c = All Keeps items → P b.tables → P c.tables

  abbrev AttemptKept : EventHandler T → Batch T → Attempt T → Type 0
  AttemptKept item b (go_on c) = Keeps item → P b.tables → P c.tables
  AttemptKept item b (abort err) = Unit

  Outcome-AttemptKept :
      {item : EventHandler T} {b : Batch T} {a : Attempt T}
      → Outcome item b a
      → AttemptKept item b a
  Outcome-AttemptKept (was_known old) = λ h p. p
  Outcome-AttemptKept (was_stored new t e) = λ h p. h _ t p e
  Outcome-AttemptKept (was_recorded new err e k) = λ h p. p
  Outcome-AttemptKept (was_aborted new err e k) = tt

  run_items-Kept :
      (items : List (EventHandler T)) (b : Batch T) → OnEnd (Kept items b) (run_items items b)
  run_items-Kept =
      loop_rule Kept (λ b _ p. p)
        (λ item items b c d o k (h, hs) p. k hs (Outcome-AttemptKept o h p))

  conclude-keeps :
      (ledger : ℕ) (items : List (EventHandler T)) (db : Db T) (m : Metrics) (end : LoopEnd T)
      → All Keeps items
      → P db.tables
      → OnEnd (Kept items (start db)) end
      → P (conclude ledger db m end).0.tables
  unfolding conclude
  conclude-keeps ledger items db m (ended b) hs p k = k hs p
  conclude-keeps ledger items db m (aborted err b) hs p k = p

  pub process_ledger-keeps :
      (ledger : ℕ) (items : List (EventHandler T)) (db : Db T) (m : Metrics)
      → All Keeps items
      → P db.tables
      → P (process_ledger ledger items db m).0.tables
  unfolding process_ledger
  process_ledger-keeps ledger items db m hs p =
      conclude-keeps ledger items db m (run_items items (start db)) hs p
        (run_items-Kept items (start db))
