-- ===== src/Lib.antt =====
-- CircleUp, a rotating savings circle on Stellar: the TypeScript of its indexer and its SDK.
--
-- The indexer follows the chain. A poll cycle (indexer/src/indexer.ts, `runPollCycle`) reads the
-- durable cursor, asks the RPC for the head of the chain, and takes a window of ledgers; it fetches
-- the events of the window page by page (`fetchAllEventsWithPagination`), checks that the answers
-- contradict neither the window nor the cursor (indexer/src/ledgerContradiction.ts), classifies each
-- event against a registry (indexer/src/eventSchemas.ts) and routes it to a handler (`routeEvent`),
-- and runs each ledger's events in one database transaction (`processLedger`) that stores the
-- projection, the dedup rows, the evidence of failed events (indexer/src/eventFailures.ts), the
-- cursor and a checkpoint. The API groups a circle's rows by round (indexer/src/groupRounds.ts). The
-- SDK decides from a snapshot which actions a member may take, and compares what a caller expects
-- with a fresh read (sdk/src/gating.ts).
--
-- Files:
--   Prelude: native numbers, Boolean tests, lists, texts and the chaining of optional results.
--   Gating: sdk/src/gating.ts. `computeActionEligibility` is `compute_action_eligibility`, one
--     function for each gate; the clock is an argument. Gating/Mismatch: `detectStateMismatches`.
--   Rounds: indexer/src/groupRounds.ts. A `Map` is an association list in insertion order; the rows
--     are of any type with a round index.
--   Failures: the class of an error and the table event_failures.
--   Ingest: `ingestEventInTx` and `processLedger`. The projection tables are a type `T`, a handler a
--     function from `T` to the tables or an error; rollbacks are written out as the state that is
--     taken up again.
--   Rpc: Contradiction, Errors and Retry (`isTransientRpcError`, `mayHaveReachedServer` and
--     `withRpcRetry`, of the indexer and of sdk/src/rpcRetry.ts), Paging.
--   Poll: Gather, Ledgers and Cycle are `processEvents` and `runPollCycle`. They call Rpc/Paging,
--     Rpc/Retry and Ingest, and the grouping and the sorting of Rounds.
--   Events: Registry, Classify, Parsers (indexer/src/eventParsers.ts) and Route.
--   Projection: the sixteen handlers (indexer/src/indexer.ts, `handleCircle...`) on the tables of
--     indexer/src/db/schema.sql. Sql and Statements are the statements that they send, Changes and
--     Statements/Values what they compute, Project `routeEvent` with the handlers, Ingestion the
--     poller over these tables. View is the machine of status, round and pause that the tables hold.
--     Payloads are the fields that the handlers read and their kinds in the registry.
--   Replay: indexer/src/db/replay.ts, `prepareReplay`. A derived table is its rows, or absent.
--     Replay/Retry: `prepareFailedEventRetry`.
--   Money: sdk/src/utils.ts, `usdcToStroops`, `stroopsToUsdc`, `formatUsdc` and `formatPot`, on texts
--     that are lists of code points.
--   Reconcile: indexer/src/circleReconciliation.ts, `reconcileCircle`: Compare the single comparisons,
--     Report the run from the reads to the outcome, on what the chain and the database answer.
--   Lease: app/src/lib/actionLease.ts, over a storage with the laws of the browser's. A lease is what
--     the storage holds at its key, and the tabs' calls are a list of steps.
--   Deadline: app/src/lib/deadline.ts, `ledgersToHuman` and `computeDeadlineDisplay`.
--   The modules named Tests hold runs on fixed inputs.
--
-- Parameters: the RPC server is its answer to each query, `Math.random` and `localeCompare` are
-- functions, `shouldStop` is an answer at each point where it is asked; the storage of a browser is
-- a record of operations and laws; the decoding of an event by the Stellar SDK and the identity that
-- is read of it are functions of the event.
--
-- Fuel: the pages of a fetch and the attempts of a retry are budgets of the source, and the loops
-- recur on them. The halving of a window recurs on the distance of its end from the cursor; each
-- round shortens it.
--
-- Bounds: ledgers, counts and stroops are natural numbers without a bound; JavaScript's numbers are
-- exact on those that occur. Texts are lower-cased in ASCII.
--
-- Not modelled: log lines and messages, the keys that identify an event, the preflight of a replay,
-- the progress report and the backoff of the polling loop, the HTTP API, the SDK's contract clients,
-- the rest of the web application and the contracts in Rust.
pub mod Prelude
pub mod Gating
pub mod Rounds
pub mod Failures
pub mod Ingest
pub mod Rpc
pub mod Poll
pub mod Events
pub mod Replay
pub mod Projection
pub mod Money
pub mod Reconcile
pub mod Lease
pub mod Deadline
