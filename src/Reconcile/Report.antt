-- ===== src/Reconcile/Report.antt =====
-- indexer/src/circleReconciliation.ts, `reconcileCircle`: the report.
pub mod Laws
pub mod Match
use circleup.Prelude.{
  ℕ, ◌+◌, ◌*◌, String, Bool, true, false, not, ◌&&◌, ◌||◌, Option, none, some, List, [], ◌∷◌, ◌++◌,
  map, any, length, ltb, leb, ◌==◌, if◌then◌else◌, str_eq,
}
use circleup.Reconcile.{
  ChainReadFailure, rpc_failed, contract_error, ChainReadResult, ok, not_ok, ConfigValue,
  ChainReader, IndexedCircle, IndexedMember, IndexedPayout, IndexedCircleSource, ReconcileField,
  member_order, member_count, round_amount, status, paused, current_round, payout_count,
  payout_recipient, payout_amount, Classification, possibly_stale, drift, CircleMismatch,
  CircleReconcileOutcome, match, mismatch, rpc_unavailable, incompatible_contract, not_indexed,
  UnavailableRead, CircleReconciliationReport,
}
use circleup.Reconcile.Compare.{
  same_amount, by_order, member_order_differs, status_matches, paused_matches, recipient_matches,
  amount_matches, expected_payouts,
}

-- What the four reads say of a circle of CircleUp.
pub record ChainView : Type 0 where
  pub rotation : List String
  pub round_amount : ℕ
  pub status : String
  pub paused : Bool
  pub closed : Bool

-- `CHAIN_STATUSES.has(s)`
abbrev pub is_chain_status : String → Bool
is_chain_status s = any (λ t. str_eq t s) ("Pending" ∷ "Active" ∷ "Completed" ∷ "Cancelled" ∷ [])

abbrev view_with :
    Option (List String) → Option ℕ → Option String → Option Bool → Option Bool → Option ChainView
view_with (some rotation) (some amount) (some s) (some p) (some c) =
    if is_chain_status s
    then some
        (record { rotation = rotation; round_amount = amount; status = s; paused = p; closed = c })
    else none
view_with _ _ _ _ _ = none

abbrev pub value_of : {A : Type 0} → ChainReadResult (Option A) → Option A
value_of (ok v) = v
value_of (not_ok f) = none

abbrev config_members : ChainReadResult ConfigValue → Option (List String)
config_members (ok c) = c.members
config_members (not_ok f) = none

abbrev config_amount : ChainReadResult ConfigValue → Option ℕ
config_amount (ok c) = c.round_amount
config_amount (not_ok f) = none

-- The contract's shape.
unfoldable pub chain_view : ChainReader → Option ChainView
chain_view reader =
    view_with (config_members reader.get_config) (config_amount reader.get_config)
      (value_of reader.get_status) (value_of reader.is_paused) (value_of reader.is_closed)

abbrev pub failure_of : {A : Type 0} → String → ChainReadResult A → List UnavailableRead
failure_of name (ok v) = []
failure_of name (not_ok f) = record { source = name; failure = f } ∷ []

unfoldable pub failed_reads : ChainReader → List UnavailableRead
failed_reads reader =
    failure_of "get_config" reader.get_config
    ++ failure_of "get_status" reader.get_status
    ++ failure_of "is_paused" reader.is_paused
    ++ failure_of "is_closed" reader.is_closed

abbrev pub is_rpc : ChainReadFailure → Bool
is_rpc rpc_failed = true
is_rpc contract_error = false

-- The class of every difference of a run.
abbrev pub classification_of : (indexed_ledger chain_ledger : ℕ) → Classification
classification_of indexed_ledger chain_ledger =
    if ltb indexed_ledger chain_ledger then possibly_stale else drift

module _ (class : Classification) where
  abbrev pub at_key : ReconcileField → ℕ → CircleMismatch
  at_key f k = record { field = f; key = some k; classification = class }

  -- A difference, unless the test says there is none.
  abbrev pub unless : Bool → ReconcileField → List CircleMismatch
  unless true f = []
  unless false f = record { field = f; key = none; classification = class } ∷ []

  abbrev pub unless_at : Bool → ReconcileField → ℕ → List CircleMismatch
  unless_at true f k = []
  unless_at false f k = at_key f k ∷ []

  -- Members, amount, status and pause.
  unfoldable pub static_mismatches :
      IndexedCircle → ChainView → List IndexedMember → List CircleMismatch
  unfolding member_order_differs status_matches
  static_mismatches circle chain members =
      map (at_key member_order) (member_order_differs chain.rotation members)
      ++ unless (circle.member_count == length chain.rotation) member_count
      ++ unless (same_amount circle.round_amount chain.round_amount) round_amount
      ++ unless (status_matches circle.status chain.closed chain.status) status
      ++ unless (paused_matches circle.paused chain.paused) paused

  unfoldable pub payout_mismatches : ChainView → List IndexedPayout → List CircleMismatch
  payout_mismatches chain [] = []
  payout_mismatches chain (p ∷ ps) =
      unless_at (recipient_matches chain.rotation p) payout_recipient p.round_index
      ++ unless_at (amount_matches (chain.round_amount * length chain.rotation) p) payout_amount
          p.round_index
      ++ payout_mismatches chain ps

  abbrev pub count_mismatches : Option ℕ → List IndexedPayout → List CircleMismatch
  count_mismatches none payouts = []
  count_mismatches (some n) payouts = unless (length payouts == n) payout_count

  abbrev pub round_mismatches : IndexedCircle → Option ℕ → List CircleMismatch
  round_mismatches circle none = []
  round_mismatches circle (some n) = unless (circle.current_round == n) current_round

  -- All that is compared where the round is `round`, or was not read.
  unfoldable pub all_mismatches :
      IndexedCircle → ChainView → IndexedCircleSource → Option ℕ → List CircleMismatch
  unfolding static_mismatches payout_mismatches expected_payouts
  all_mismatches circle chain source round =
      static_mismatches circle chain source.members
      ++ round_mismatches circle round
      ++ count_mismatches (expected_payouts chain.status (length chain.rotation) round)
          source.payouts
      ++ payout_mismatches chain source.payouts

abbrev pub outcome_of : List CircleMismatch → CircleReconcileOutcome
outcome_of [] = match
outcome_of (m ∷ ms) = mismatch

abbrev pub has_round : String → Bool
has_round s = str_eq s "Pending" || str_eq s "Active"

abbrev pub static_fields : List ReconcileField
static_fields = member_order ∷ member_count ∷ round_amount ∷ status ∷ paused ∷ []

abbrev pub field_if : {A : Type 0} → ReconcileField → Option A → List ReconcileField
field_if f none = []
field_if f (some a) = f ∷ []

module _ (source : IndexedCircleSource) (chain_ledger : ℕ) (circle : IndexedCircle)
    (chain : ChainView) where
  abbrev class : Classification
  class = classification_of source.indexed_ledger chain_ledger

  -- MAX_RECONCILE_ROWS
  abbrev is_truncated : Bool
  is_truncated = leb 512 (length source.members) || leb 512 (length source.payouts)

  -- The end of the run, with the round as far as it was read.
  unfoldable pub compared : Option ℕ → List UnavailableRead → CircleReconciliationReport
  unfolding all_mismatches expected_payouts
  compared round unavailable =
      let found = all_mismatches class circle chain source round in
      record {
        outcome = outcome_of found;
        indexed_ledger = source.indexed_ledger;
        chain_ledger = some chain_ledger;
        checked =
            static_fields
            ++ field_if current_round round
            ++ field_if payout_count (expected_payouts chain.status (length chain.rotation) round)
            ++ payout_recipient ∷ payout_amount ∷ [];
        mismatches = found;
        unavailable = unavailable;
        truncated = is_truncated;
      }

  -- The RPC fails at the last read.
  unfoldable pub interrupted : CircleReconciliationReport
  unfolding static_mismatches
  interrupted = record {
    outcome = rpc_unavailable;
    indexed_ledger = source.indexed_ledger;
    chain_ledger = some chain_ledger;
    checked = static_fields;
    mismatches = static_mismatches class circle chain source.members;
    unavailable = record { source = "get_current_round"; failure = rpc_failed } ∷ [];
    truncated = is_truncated;
  }

  abbrev pub round_unread : List UnavailableRead
  round_unread = record { source = "get_current_round"; failure = contract_error } ∷ []

  unfoldable pub after_round : ChainReadResult (Option ℕ) → CircleReconciliationReport
  unfolding compared interrupted
  after_round (not_ok rpc_failed) = interrupted
  after_round (not_ok contract_error) = compared none round_unread
  after_round (ok none) = compared none round_unread
  after_round (ok (some n)) = compared (some n) []

  unfoldable pub compare_with_round : ChainReadResult (Option ℕ) → CircleReconciliationReport
  unfolding after_round
  compare_with_round read =
      let with_round = after_round read in
      if has_round chain.status then with_round else compared none []

module _ (source : IndexedCircleSource) where
  -- A run that compares nothing.
  abbrev pub without_comparison :
      CircleReconcileOutcome → Option ℕ → List UnavailableRead → CircleReconciliationReport
  without_comparison outcome chain_ledger unavailable = record {
    outcome = outcome;
    indexed_ledger = source.indexed_ledger;
    chain_ledger = chain_ledger;
    checked = [];
    mismatches = [];
    unavailable = unavailable;
    truncated = false;
  }

  abbrev pub or_shape : List UnavailableRead → List UnavailableRead
  or_shape [] =
      record { source = "get_config/get_status/is_paused/is_closed"; failure = contract_error } ∷ []
  or_shape (r ∷ rs) = r ∷ rs

  unfoldable pub after_view :
      ChainReader → ℕ → IndexedCircle → Option ChainView → CircleReconciliationReport
  unfolding compare_with_round failed_reads
  after_view reader chain_ledger circle none =
      without_comparison incompatible_contract (some chain_ledger) (or_shape (failed_reads reader))
  after_view reader chain_ledger circle (some chain) =
      compare_with_round source chain_ledger circle chain reader.get_current_round

  unfoldable pub after_ledger : ChainReader → IndexedCircle → Option ℕ → CircleReconciliationReport
  unfolding after_view failed_reads chain_view
  after_ledger reader circle none =
      without_comparison rpc_unavailable none
        (record { source = "getLatestLedger"; failure = rpc_failed } ∷ [])
  after_ledger reader circle (some chain_ledger) =
      let seen = after_view reader chain_ledger circle (chain_view reader) in
      if any (λ r. is_rpc r.failure) (failed_reads reader)
      then without_comparison rpc_unavailable (some chain_ledger) (failed_reads reader)
      else seen

  unfoldable pub report_on : ChainReader → Option IndexedCircle → CircleReconciliationReport
  unfolding after_ledger
  report_on reader none = without_comparison not_indexed none []
  report_on reader (some circle) = after_ledger reader circle reader.latest_ledger

-- `none` is the error of an address that is not valid.
unfoldable pub reconcile_circle :
    Bool → ChainReader → IndexedCircleSource → Option CircleReconciliationReport
unfolding report_on
reconcile_circle is_valid reader source =
    if is_valid then some (report_on source reader source.circle) else none
