-- ===== src/Reconcile/Tests.antt =====
-- Runs of the reconciliation on one circle of three members.
use circleup.Prelude.{ℕ, ◌≡◌, ◌↔◌, refl, String, false, Option, none, some, List, [], ◌∷◌, map}
use circleup.Reconcile.{
  rpc_failed, ok, not_ok, ChainReadResult, ChainReader, IndexedCircle, IndexedPayout,
  IndexedCircleSource, payout_count, possibly_stale, match, rpc_unavailable, not_indexed,
}
use circleup.Reconcile.Report.{report_on, reconcile_circle}
use circleup.Reconcile.Report.Match.{IsConfirmed, report_on_match}

abbrev first_payout : IndexedPayout
first_payout = record { round_index = 0; recipient = "GA"; amount = some 30; is_exceptional = none }

abbrev three_members : IndexedCircle
three_members = record {
  status = "Active";
  current_round = 1;
  member_count = 3;
  round_amount = some 10;
  paused = some false;
}

-- The rows after the first round.
abbrev rows : Option IndexedCircle → List IndexedPayout → IndexedCircleSource
rows circle payouts = record {
  indexed_ledger = 90;
  circle = circle;
  members =
      record { member_address = "GB"; payout_order = 1 }
      ∷ record { member_address = "GA"; payout_order = 0 }
      ∷ record { member_address = "GC"; payout_order = 2 }
      ∷ [];
  payouts = payouts;
}

-- An active circle, with the order of its members and the answer on its round as given.
abbrev chain_of : List String → ChainReadResult (Option ℕ) → ChainReader
chain_of rotation round = record {
  latest_ledger = some 95;
  get_config = ok (record { members = some rotation; round_amount = some 10 });
  get_status = ok (some "Active");
  is_paused = ok (some false);
  is_closed = ok (some false);
  get_current_round = round;
}

abbrev in_order : ChainReader
in_order = chain_of ("GA" ∷ "GB" ∷ "GC" ∷ []) (ok (some 1))

abbrev lost_round : ChainReader
lost_round = chain_of ("GA" ∷ "GB" ∷ "GC" ∷ []) (not_ok rpc_failed)

abbrev paid_once : IndexedCircleSource
paid_once = rows (some three_members) (first_payout ∷ [])

agreed : (report_on paid_once in_order (some three_members)).outcome ≡ match
unfolding report_on
agreed = refl

unpaid :
    (report_on (rows (some three_members) []) in_order (some three_members)).mismatches
    ≡ record { field = payout_count; key = none; classification = possibly_stale } ∷ []
unfolding report_on
unpaid = refl

swapped :
    map
      (λ m. m.key)
      (report_on paid_once
        (chain_of ("GA" ∷ "GC" ∷ "GB" ∷ []) (ok (some 1)))
        (some three_members)).mismatches
    ≡ some 1 ∷ some 2 ∷ []
unfolding report_on
swapped = refl

lost : (report_on paid_once lost_round (some three_members)).outcome ≡ rpc_unavailable
unfolding report_on
lost = refl

unknown : (report_on (rows none []) in_order none).outcome ≡ not_indexed
unfolding report_on
unknown = refl

not_an_address : reconcile_circle false in_order paid_once ≡ none
unfolding reconcile_circle
not_an_address = refl

report_on_match_example :
    ((report_on paid_once in_order paid_once.circle).outcome ≡ match)
    ↔ IsConfirmed in_order paid_once
report_on_match_example = report_on_match in_order paid_once
