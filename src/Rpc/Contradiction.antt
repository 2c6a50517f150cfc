-- ===== src/Rpc/Contradiction.antt =====
-- indexer/src/ledgerContradiction.ts: evidence that an RPC answer contradicts what is durable. The
-- texts `detail` and `remediation` are not modelled.
use circleup.Prelude.{
  ℕ, ◌≤◌, ◌≡◌, ◌↔◌, String, ◌&&◌, Option, none, some, List, [], ◌∷◌, ltb, if◌then◌else◌, arith, All,
}
use circleup.Rpc.{RpcEvent}

pub data ContradictionType : Type 0 where
  sequence_regression inconsistent_event_range ledger_identity_conflict : ContradictionType

pub record LedgerContradictionEvidence : Type 0 where
  pub kind : ContradictionType
  pub durable_ledger : ℕ
  pub observed_ledger : ℕ
  pub observed_id : Option String

unfoldable pub detect_ledger_sequence_regression :
    ℕ → ℕ → Option String → Option LedgerContradictionEvidence
detect_ledger_sequence_regression durable_last_ledger observed_latest_ledger observed_id =
    if ltb 0 durable_last_ledger && ltb observed_latest_ledger durable_last_ledger
    then some (record {
      kind = sequence_regression;
      durable_ledger = durable_last_ledger;
      observed_ledger = observed_latest_ledger;
      observed_id = observed_id;
    })
    else none

abbrev pub out_of_range : ℕ → RpcEvent → LedgerContradictionEvidence
out_of_range bound ev = record {
  kind = inconsistent_event_range;
  durable_ledger = bound;
  observed_ledger = ev.ledger;
  observed_id = ev.id;
}

unfoldable pub detect_event_range_contradiction :
    List RpcEvent → ℕ → ℕ → Option LedgerContradictionEvidence
detect_event_range_contradiction [] from_ledger to_ledger = none
detect_event_range_contradiction (ev ∷ events) from_ledger to_ledger =
    if ltb ev.ledger from_ledger
    then some (out_of_range from_ledger ev)
    else if ltb to_ledger ev.ledger
    then some (out_of_range to_ledger ev)
    else detect_event_range_contradiction events from_ledger to_ledger

abbrev pub InWindow : ℕ → ℕ → RpcEvent → Type 0
InWindow from_ledger to_ledger ev = (from_ledger ≤ ev.ledger) × (ev.ledger ≤ to_ledger)

-- No contradiction is found if and only if every event lies in the window.
pub detect_event_range_iff :
    (events : List RpcEvent) (from_ledger to_ledger : ℕ)
    → (detect_event_range_contradiction events from_ledger to_ledger ≡ none)
      ↔ All (InWindow from_ledger to_ledger) events
unfolding detect_event_range_contradiction
detect_event_range_iff [] from_ledger to_ledger = ground arith
detect_event_range_iff (ev ∷ events) from_ledger to_ledger =
    ground (arith, detect_event_range_iff events from_ledger to_ledger)
