-- ===== src/Rounds/Tests.antt =====
-- indexer/src/groupRounds.ts: a circle in its third round, with rows of four rounds.
use circleup.Prelude.{
  ℕ, ◌+◌, ◌≤◌, ◌≡◌, refl, String, List, [], ◌∷◌, map, length, keep, All, if◌then◌else◌,
}
use circleup.Rounds.{
  RoundPayoutFields, CircleRoundContext, GroupedRoundsResult, index_of, group_circle_rounds,
}
use circleup.Rounds.Index.{count, once, is_at, Ascending}
use circleup.Rounds.Partition.{option_list, indices, current_of}
use circleup.Rounds.Rows.{seen, rows, single_current, paid}
use circleup.Rounds.Laws.{each_round_once, rounds-Ascending}
use circleup.Rounds.Placement.{IsCompleted, IsCurrent, IsOpen, rounds_placed, pending_defaults_at}

abbrev pay : ℕ → String → RoundPayoutFields
pay k recipient = record {
  round_index = k;
  recipient = recipient;
  amount = "5";
  tx_hash = "t";
  ledger = "9";
}

abbrev context : CircleRoundContext
context = record { current_round = 2; status = "Active" }

-- A row of contributions or of defaults is its round.
abbrev itself : ℕ → ℕ
itself n = n

abbrev some_payouts : List RoundPayoutFields
some_payouts = pay 1 "a" ∷ pay 0 "b" ∷ pay 1 "c" ∷ []

abbrev some_contributions : List ℕ
some_contributions = 4 ∷ 1 ∷ 2 ∷ []

abbrev some_defaults : List ℕ
some_defaults = 3 ∷ 2 ∷ []

abbrev grouped : GroupedRoundsResult ℕ ℕ
grouped = group_circle_rounds itself itself context some_payouts some_contributions some_defaults

open_rounds_test : map index_of grouped.open_rounds ≡ 3 ∷ 4 ∷ []
unfolding group_circle_rounds
open_rounds_test = refl

each_round_once_example :
    count 3 (indices grouped.rounds)
      + count 3 (indices (option_list grouped.current_round))
      + count 3 (indices grouped.open_rounds)
    ≡ once (seen itself itself context some_payouts some_contributions some_defaults 3)
each_round_once_example =
    each_round_once itself itself context some_payouts some_contributions some_defaults 3

rounds-Ascending_example :
    Ascending (indices grouped.rounds) × Ascending (indices grouped.open_rounds)
rounds-Ascending_example =
    rounds-Ascending itself itself context some_payouts some_contributions some_defaults

rounds_placed_example :
    All
      (IsCompleted itself itself context some_payouts some_contributions some_defaults)
      grouped.rounds
    × All
        (IsCurrent itself itself context some_payouts some_contributions some_defaults)
        (option_list grouped.current_round)
    × All
        (IsOpen itself itself context some_payouts some_contributions some_defaults)
        grouped.open_rounds
rounds_placed_example =
    rounds_placed itself itself context some_payouts some_contributions some_defaults

pending_defaults_at_example : keep (is_at itself 3) grouped.pending_defaults ≡ (
    if paid itself itself context some_payouts some_contributions some_defaults 3
    then []
    else keep (is_at itself 3) some_defaults)
pending_defaults_at_example =
    pending_defaults_at itself itself context some_payouts some_contributions some_defaults 3

single_current_example :
    length (current_of (rows itself itself context some_payouts some_contributions some_defaults))
    ≤ 1
single_current_example =
    single_current itself itself context some_payouts some_contributions some_defaults
