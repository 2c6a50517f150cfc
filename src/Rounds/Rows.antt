-- ===== src/Rounds/Rows.antt =====
-- indexer/src/groupRounds.ts, step 4: the list of all rounds, before it is split up.
use circleup.Prelude.{
  ℕ, ◌≤◌, ◌≡◌, refl, ap, ◌∙◌, Bool, true, ◌&&◌, ◌||◌, List, [], ◌∷◌, map, any, ◌==◌, is_some, arith,
  inl, inr, Bool-cases, keep-true, keep-false, length,
}
use circleup.Rounds.{
  RoundPayoutFields, CircleRoundContext, GroupedRound, GroupedRoundsResult, keys,
  group_by_round_index, build_payout_index, sort_by, resolve_status, has_current, known_keys,
  to_round, all_rounds, group_circle_rounds, is_current,
}
use circleup.Rounds.Index.{
  count, includes, once, is_at, includes-group_by_round_index, first_payout, get-build_payout_index,
  includes-keys, count-sort_by, Ascending, sort_by-Ascending,
}
use circleup.Rounds.Partition.{indices, current_of, includes-known_keys, count-known_keys}

module _ {C D : Type 0} (c_round : C → ℕ) (d_round : D → ℕ) (circle : CircleRoundContext)
    (payouts : List RoundPayoutFields) (contributions : List C) (defaults : List D) where
  -- The round has a payout; it has a row in some table, or it is the current round of an active or
  -- cancelled circle.
  abbrev pub paid : ℕ → Bool
  paid k = is_some (first_payout k payouts)

  abbrev pub seen : ℕ → Bool
  seen k =
      (paid k || any (is_at c_round k) contributions || any (is_at d_round k) defaults)
      || (has_current circle && (circle.current_round == k))

  abbrev pub result : GroupedRoundsResult C D
  result = group_circle_rounds c_round d_round circle payouts contributions defaults

  abbrev pub every_key : List ℕ
  every_key =
      known_keys circle (keys (build_payout_index payouts))
        (keys (group_by_round_index c_round contributions))
        (keys (group_by_round_index d_round defaults))

  pub includes-every_key : (k : ℕ) → includes k every_key ≡ seen k
  includes-every_key k = rw (
    includes-known_keys k _ _ _ circle,
    includes-keys k (build_payout_index payouts),
    get-build_payout_index payouts k,
    includes-group_by_round_index c_round contributions k,
    includes-group_by_round_index d_round defaults k,
  )

  pub count-every_key : (k : ℕ) → count k every_key ≡ once (seen k)
  count-every_key k = count-known_keys k _ _ _ circle ∙ ap once (includes-every_key k)

  unfoldable pub row_of : ℕ → GroupedRound C D
  row_of =
      to_round circle (build_payout_index payouts) (group_by_round_index c_round contributions)
        (group_by_round_index d_round defaults)

  unfoldable pub rows : List (GroupedRound C D)
  rows = all_rounds c_round d_round circle payouts contributions defaults

  pub rows_lem : rows ≡ map row_of (sort_by (λ k. k) every_key)
  unfolding rows row_of all_rounds
  rows_lem = refl

  pub indices-map : (ks : List ℕ) → indices (map row_of ks) ≡ ks
  unfolding row_of to_round
  indices-map [] = refl
  indices-map (k ∷ ks) = ap (λ js. k ∷ js) (indices-map ks)

  pub indices-rows : indices rows ≡ sort_by (λ k. k) every_key
  indices-rows = rw rows_lem (indices-map _)

  pub count-rows : (k : ℕ) → count k (indices rows) ≡ once (seen k)
  count-rows k = rw indices-rows (count-sort_by k every_key ∙ count-every_key k)

  pub rows-Ascending : Ascending (indices rows)
  rows-Ascending = rw indices-rows (sort_by-Ascending every_key)

  -- Only the row of the circle's current round can be a candidate.
  pub candidate_index : (k : ℕ) → is_current (row_of k).status ≡ true → k ≡ circle.current_round
  unfolding row_of to_round resolve_status
  candidate_index k h = ground (arith)

  pub candidates :
      (ks : List ℕ) → length (current_of (map row_of ks)) ≤ count circle.current_round ks
  candidates [] = omega arith
  candidates (k ∷ ks) = elim (Bool-cases (is_current (row_of k).status)) [
    | inl yes_current ↦
        rw (keep-true _ (row_of k) (map row_of ks) yes_current)
          (ground (arith, candidate_index k yes_current, candidates ks))
    | inr not_current ↦
        rw (keep-false _ (row_of k) (map row_of ks) not_current) (ground (arith, candidates ks))
  ]

  once-le : (b : Bool) → once b ≤ 1
  once-le b = ground arith

  -- The guard of step 5 against several current rounds is never needed: at most one round resolves
  -- to "current" or "cancelled".
  pub single_current : length (current_of rows) ≤ 1
  single_current = rw rows_lem (
      omega (
        arith,
        candidates (sort_by (λ k. k) every_key),
        count-sort_by circle.current_round every_key,
        count-every_key circle.current_round,
        once-le (seen circle.current_round),
      ))
