-- ===== src/Reconcile.antt =====
-- indexer/src/circleReconciliation.ts, `reconcileCircle`: one circle of the indexer compared with the
-- chain. The reads are what the chain and the database answer, decoded: `none` is a value of another
-- shape. Amounts are taken not to be negative, the text of an indexed amount is what `BigInt` reads
-- of it, and of a mismatch its field, its key and its class are kept. The check of the address is a
-- parameter; the time of the report is left out.
pub mod Compare
pub mod Report
mod Tests
use circleup.Prelude.{ℕ, String, Bool, Option, List}

pub data ChainReadFailure : Type 0 where
  rpc_failed contract_error : ChainReadFailure

pub data ChainReadResult (A : Type 0) : Type 0 where
  ok : A → ChainReadResult A
  not_ok : ChainReadFailure → ChainReadResult A

-- `get_config`: the rotation, where it is an array of texts, and the amount of a round.
pub record ConfigValue : Type 0 where
  pub members : Option (List String)
  pub round_amount : Option ℕ

-- `latest_ledger` is `none` where the call throws.
pub record ChainReader : Type 0 where
  pub latest_ledger : Option ℕ
  pub get_config : ChainReadResult ConfigValue
  pub get_status : ChainReadResult (Option String)
  pub is_paused : ChainReadResult (Option Bool)
  pub is_closed : ChainReadResult (Option Bool)
  pub get_current_round : ChainReadResult (Option ℕ)

pub record IndexedCircle : Type 0 where
  pub status : String
  pub current_round : ℕ
  pub member_count : ℕ
  pub round_amount : Option ℕ
  pub paused : Option Bool

pub record IndexedMember : Type 0 where
  pub member_address : String
  pub payout_order : ℕ

pub record IndexedPayout : Type 0 where
  pub round_index : ℕ
  pub recipient : String
  pub amount : Option ℕ
  pub is_exceptional : Option Bool

-- The rows of the projection, 512 of each kind at most.
pub record IndexedCircleSource : Type 0 where
  pub indexed_ledger : ℕ
  pub circle : Option IndexedCircle
  pub members : List IndexedMember
  pub payouts : List IndexedPayout

pub data ReconcileField : Type 0 where
  member_order member_count round_amount status paused current_round : ReconcileField
  payout_count payout_recipient payout_amount : ReconcileField

pub data Classification : Type 0 where
  possibly_stale drift : Classification

pub record CircleMismatch : Type 0 where
  pub field : ReconcileField
  pub key : Option ℕ
  pub classification : Classification

pub data CircleReconcileOutcome : Type 0 where
  match mismatch rpc_unavailable incompatible_contract not_indexed : CircleReconcileOutcome

pub record UnavailableRead : Type 0 where
  pub source : String
  pub failure : ChainReadFailure

pub record CircleReconciliationReport : Type 0 where
  pub outcome : CircleReconcileOutcome
  pub indexed_ledger : ℕ
  pub chain_ledger : Option ℕ
  pub checked : List ReconcileField
  pub mismatches : List CircleMismatch
  pub unavailable : List UnavailableRead
  pub truncated : Bool
