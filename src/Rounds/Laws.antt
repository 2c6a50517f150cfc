-- ===== src/Rounds/Laws.antt =====
-- indexer/src/groupRounds.ts, `groupCircleRounds`: every round is listed once, in order, and with
-- all of its rows.
use circleup.Prelude.{ℕ, ◌+◌, ◌≡◌, refl, ap, ◌∙◌, List, [], ◌∷◌, map, keep, is_some, All}
use circleup.Rounds.{
  RoundPayoutFields, CircleRoundContext, GroupedRound, GroupedRoundsResult, resolve_status,
  field_of, to_round, group_circle_rounds,
}
use circleup.Rounds.Index.{
  count, once, is_at, rows_at-group_by_round_index, first_payout, get-build_payout_index, Ascending,
}
use circleup.Rounds.Partition.{
  indices, option_list, completed_of, current_of, open_of, count-partition, keep-Ascending,
  settle_current_single,
}
use circleup.Rounds.Rows.{
  paid, seen, result, row_of, rows, rows_lem, count-rows, rows-Ascending, single_current,
}

module _ {C D : Type 0} (c_round : C → ℕ) (d_round : D → ℕ) (circle : CircleRoundContext)
    (payouts : List RoundPayoutFields) (contributions : List C) (defaults : List D) where
  abbrev pub these : List (GroupedRound C D)
  these = rows c_round d_round circle payouts contributions defaults

  abbrev pub out : GroupedRoundsResult C D
  out = result c_round d_round circle payouts contributions defaults

  -- What a row of the answer says of its round.
  pub record IsAccurate (r : GroupedRound C D) : Type 0 where
    pub contributions_all : r.contributions ≡ keep (is_at c_round r.round_index) contributions
    pub defaults_all : r.defaults ≡ keep (is_at d_round r.round_index) defaults
    pub status_resolved :
        r.status
        ≡ resolve_status r.round_index
            (paid c_round d_round circle payouts contributions defaults r.round_index)
            circle
    pub recipient_first :
        r.recipient ≡ field_of (λ p. p.recipient) (first_payout r.round_index payouts)
    pub amount_first : r.amount ≡ field_of (λ p. p.amount) (first_payout r.round_index payouts)
    pub tx_hash_first : r.tx_hash ≡ field_of (λ p. p.tx_hash) (first_payout r.round_index payouts)
    pub ledger_first : r.ledger ≡ field_of (λ p. p.ledger) (first_payout r.round_index payouts)

  row_of-IsAccurate :
      (k : ℕ) → IsAccurate (row_of c_round d_round circle payouts contributions defaults k)
  unfolding row_of to_round
  row_of-IsAccurate k = record {
    contributions_all = rows_at-group_by_round_index c_round contributions k;
    defaults_all = rows_at-group_by_round_index d_round defaults k;
    status_resolved =
        ap (λ p. resolve_status k (is_some p) circle) (get-build_payout_index payouts k);
    recipient_first = ap (field_of (λ p. p.recipient)) (get-build_payout_index payouts k);
    amount_first = ap (field_of (λ p. p.amount)) (get-build_payout_index payouts k);
    tx_hash_first = ap (field_of (λ p. p.tx_hash)) (get-build_payout_index payouts k);
    ledger_first = ap (field_of (λ p. p.ledger)) (get-build_payout_index payouts k);
  }

  map-IsAccurate :
      (ks : List ℕ)
      → All IsAccurate (map (row_of c_round d_round circle payouts contributions defaults) ks)
  map-IsAccurate [] = tt
  map-IsAccurate (k ∷ ks) = (row_of-IsAccurate k, map-IsAccurate ks)

  pub rows-IsAccurate : All IsAccurate these
  rows-IsAccurate =
      rw (rows_lem c_round d_round circle payouts contributions defaults) (map-IsAccurate _)

  pub settled :
      (option_list out.current_round ≡ current_of these) × (out.open_rounds ≡ open_of these)
  unfolding group_circle_rounds rows
  settled =
      settle_current_single _ _
        (single_current c_round d_round circle payouts contributions defaults)

  pub rounds_lem : out.rounds ≡ completed_of these
  unfolding group_circle_rounds rows
  rounds_lem = refl

-- Every round index is listed once if some table has a row of it or it is the current round of an
-- active or cancelled circle, and is not listed otherwise: over the completed, current and open
-- rounds of the answer together.
pub each_round_once :
    {C D : Type 0} (c_round : C → ℕ) (d_round : D → ℕ) (circle : CircleRoundContext)
    (payouts : List RoundPayoutFields) (contributions : List C) (defaults : List D) (k : ℕ)
    → let answer = group_circle_rounds c_round d_round circle payouts contributions defaults in
      count k (indices answer.rounds)
        + count k (indices (option_list answer.current_round))
        + count k (indices answer.open_rounds)
      ≡ once (seen c_round d_round circle payouts contributions defaults k)
each_round_once c_round d_round circle payouts contributions defaults k =
    let (cur, opn) = settled c_round d_round circle payouts contributions defaults in
    rw (cur, opn, rounds_lem c_round d_round circle payouts contributions defaults)
      (count-partition k _ ∙ count-rows c_round d_round circle payouts contributions defaults k)

-- The completed rounds and the open rounds are both listed by ascending index.
pub rounds-Ascending :
    {C D : Type 0} (c_round : C → ℕ) (d_round : D → ℕ) (circle : CircleRoundContext)
    (payouts : List RoundPayoutFields) (contributions : List C) (defaults : List D)
    → let answer = group_circle_rounds c_round d_round circle payouts contributions defaults in
      Ascending (indices answer.rounds) × Ascending (indices answer.open_rounds)
rounds-Ascending c_round d_round circle payouts contributions defaults =
    let (cur, opn) = settled c_round d_round circle payouts contributions defaults in
    let sorted = rows-Ascending c_round d_round circle payouts contributions defaults in
    rw (opn, rounds_lem c_round d_round circle payouts contributions defaults)
      (keep-Ascending _ _ sorted, keep-Ascending _ _ sorted)
