-- ===== src/Poll.antt =====
-- indexer/src/indexer.ts, `processEvents` and `runPollCycle`: from the durable cursor to the next one.
-- Parameters: the RPC, the routing of an event to its handler, the parser of new circles, the
-- comparison of event ids by locale, and what `shouldStop` says at each point where it is asked.
pub mod Gather
pub mod Ledgers
pub mod Cycle
mod Tests
use circleup.Prelude.{ℕ, String, Bool, true, false, Option, List, ◌+◌, ◌-◌, min}
use circleup.Failures.{HandlerError}
use circleup.Ingest.{EventHandler}
use circleup.Rpc.{RpcEvent}
use circleup.Rpc.Errors.{RpcError}
use circleup.Rpc.Contradiction.{LedgerContradictionEvidence}
use circleup.Rpc.Paging.{FetchError, is_batch_limit, Query, PageAnswer}

pub record PollConfig : Type 0 where
  pub start_ledger : ℕ
  pub events_limit : ℕ
  pub backfill_max_pages : ℕ
  pub backfill_max_events : ℕ
  pub backfill_max_ledgers : ℕ
  pub factory : String
  pub reputation : String

-- What ends a poll early.
pub data PollError : Type 0 where
  fetch_failed : FetchError → PollError
  contradicted : LedgerContradictionEvidence → PollError
  combined_budget stopped : PollError
  handler_failed : HandlerError → PollError
  latest_failed : Option RpcError → PollError

-- `err instanceof BatchLimitError`
abbrev pub is_batch_error : PollError → Bool
is_batch_error (fetch_failed e) = is_batch_limit e
is_batch_error combined_budget = true
is_batch_error _ = false

pub data PollResult : Type 0 where
  polled : ℕ → ℕ → PollResult
  poll_failed : PollError → PollResult

-- An event with its handler.
pub record Routed (T : Type 0) : Type 0 where
  pub source : RpcEvent
  pub item : EventHandler T

-- What the poller calls, over tables `T`.
pub record Sources (T : Type 0) : Type 0 where
  pub answer : List String → ℕ → Query → PageAnswer
  pub stop_fetch : List String → ℕ → Bool
  pub stop_ledger : ℕ → Bool
  pub stop_trailing : Bool
  pub new_circle : RpcEvent → Option String
  pub route : RpcEvent → Option (EventHandler T)
  pub known_circles : T → List String
  pub id_before : String → String → Bool

unfoldable pub batch_end : ℕ → ℕ → ℕ → ℕ
batch_end from head ledgers = min head (from + ledgers - 1)
