-- ===== src/Rounds/Placement.antt =====
-- indexer/src/groupRounds.ts, step 5 and step 6: which rounds and which defaults stand where.
use circleup.Prelude.{
  ℕ, ◌==◌, str_eq, eq_iff, sym, ◌≡◌, ◌≢◌, ◌⊎◌, refl, Bool, true, false, not, List, [], ◌∷◌, keep,
  if◌then◌else◌, is_some, arith, inl, inr, Bool-cases, All, keep-true, keep-false,
}
use mathlib.Core.Path.{subst}
use circleup.Rounds.{
  RoundStatus, current, cancelled, RoundPayoutFields, CircleRoundContext, GroupedRound,
  GroupedRoundsResult, get, build_payout_index, resolve_status, has_current, group_circle_rounds,
  is_completed, is_current, is_open,
}
use circleup.Rounds.Index.{is_at, get-build_payout_index}
use circleup.Rounds.Partition.{option_list, completed_of, current_of, open_of}
use circleup.Rounds.Rows.{paid}
use circleup.Rounds.Laws.{IsAccurate, these, out, settled, rounds_lem, rows-IsAccurate}

All-weaken :
    {C D : Type 0} (P Q : GroupedRound C D → Type 0) (p : GroupedRound C D → Bool)
    (rs : List (GroupedRound C D))
    → ((r : GroupedRound C D) → P r → p r ≡ true → Q r)
    → All P rs
    → All Q (keep p rs)
All-weaken P Q p [] f h = tt
All-weaken P Q p (r ∷ rs) f (h, hs) = elim (Bool-cases (p r)) [
  | inl kept ↦ rw (keep-true p r rs kept) (f r h kept, All-weaken P Q p rs f hs)
  | inr dropped ↦ rw (keep-false p r rs dropped) (All-weaken P Q p rs f hs)
]

resolved_completed :
    (k : ℕ) (has_payout : Bool) (circle : CircleRoundContext)
    → is_completed (resolve_status k has_payout circle) ≡ true
    → has_payout ≡ true
unfolding resolve_status
resolved_completed k true circle h = refl
resolved_completed k false circle h = ground arith

resolved_current :
    (k : ℕ) (has_payout : Bool) (circle : CircleRoundContext)
    → is_current (resolve_status k has_payout circle) ≡ true
    → (has_payout ≡ false) × (k ≡ circle.current_round) × (has_current circle ≡ true)
unfolding resolve_status
resolved_current k true circle h = ground arith
resolved_current k false circle h = ground arith

-- The status tells an active circle from a cancelled one.
abbrev pub IsLabelled : CircleRoundContext → RoundStatus → Type 0
IsLabelled circle s =
    ((s ≡ current) × (circle.status ≡ "Active")) ⊎ ((s ≡ cancelled) × (circle.status ≡ "Cancelled"))

resolved_label :
    (k : ℕ) (has_payout : Bool) (circle : CircleRoundContext)
    → is_current (resolve_status k has_payout circle) ≡ true
    → IsLabelled circle (resolve_status k has_payout circle)
unfolding resolve_status
resolved_label k true circle h = ground (arith, h)
resolved_label k false circle h = elim (Bool-cases (k == circle.current_round)) [
  | inr other ↦ absurd (ground (arith, h, other))
  | inl here ↦ elim (Bool-cases (str_eq circle.status "Cancelled")) [
    | inl ended ↦ rw (here, ended) (inr (refl, (eq_iff circle.status "Cancelled").0 ended))
    | inr going ↦ elim (Bool-cases (str_eq circle.status "Active")) [
      | inl runs ↦ rw (here, going, runs) (inl (refl, (eq_iff circle.status "Active").0 runs))
      | inr stops ↦ absurd (ground (arith, h, here, going, stops))
    ]
  ]
]

resolved_open :
    (k : ℕ) (has_payout : Bool) (circle : CircleRoundContext)
    → is_open (resolve_status k has_payout circle) ≡ true
    → (has_payout ≡ false) × ((k ≢ circle.current_round) ⊎ (has_current circle ≡ false))
unfolding resolve_status
resolved_open k true circle h = ground arith
resolved_open k false circle h = ground arith

module _ {C D : Type 0} (c_round : C → ℕ) (d_round : D → ℕ) (circle : CircleRoundContext)
    (payouts : List RoundPayoutFields) (contributions : List C) (defaults : List D) where
  abbrev Accurate : GroupedRound C D → Type 0
  Accurate = IsAccurate c_round d_round circle payouts contributions defaults

  abbrev is_paid : ℕ → Bool
  is_paid = paid c_round d_round circle payouts contributions defaults

  -- A row in each of the three buckets.
  abbrev pub IsCompleted : GroupedRound C D → Type 0
  IsCompleted r = Accurate r × (is_paid r.round_index ≡ true)

  abbrev pub IsCurrent : GroupedRound C D → Type 0
  IsCurrent r =
      Accurate r
      × (is_paid r.round_index ≡ false)
      × (r.round_index ≡ circle.current_round)
      × (has_current circle ≡ true)
      × IsLabelled circle r.status

  abbrev pub IsOpen : GroupedRound C D → Type 0
  IsOpen r =
      Accurate r
      × (is_paid r.round_index ≡ false)
      × ((r.round_index ≢ circle.current_round) ⊎ (has_current circle ≡ false))

  abbrev cut : List (GroupedRound C D)
  cut = these c_round d_round circle payouts contributions defaults

  abbrev answer : GroupedRoundsResult C D
  answer = out c_round d_round circle payouts contributions defaults

  IsCompleted-placed : All IsCompleted (completed_of cut)
  IsCompleted-placed =
      All-weaken Accurate IsCompleted (λ r. is_completed r.status) cut
        (λ r a h. (
          a,
          resolved_completed r.round_index (is_paid r.round_index) circle
              (rw (← a.status_resolved) h),
        ))
        (rows-IsAccurate c_round d_round circle payouts contributions defaults)

  IsCurrent-placed : All IsCurrent (current_of cut)
  IsCurrent-placed =
      All-weaken Accurate IsCurrent (λ r. is_current r.status) cut
        (λ r a h.
          let (p, k, c) =
            resolved_current r.round_index (is_paid r.round_index) circle
              (rw (← a.status_resolved) h) in
          (
            a,
            p,
            k,
            c,
            subst (IsLabelled circle) (sym a.status_resolved) (
                resolved_label r.round_index (is_paid r.round_index) circle
                  (rw (← a.status_resolved) h)),
          ))
        (rows-IsAccurate c_round d_round circle payouts contributions defaults)

  IsOpen-placed : All IsOpen (open_of cut)
  IsOpen-placed =
      All-weaken Accurate IsOpen (λ r. is_open r.status) cut
        (λ r a h.
          let (p, k) =
            resolved_open r.round_index (is_paid r.round_index) circle
              (rw (← a.status_resolved) h) in
          (a, p, k))
        (rows-IsAccurate c_round d_round circle payouts contributions defaults)

  -- Every row of the answer holds the contributions and defaults of its round, all of them and in
  -- order, and the data of its first payout; the completed rows are those with a payout, the
  -- current row is the circle's current round, unpaid, of an active circle, where its status is
  -- `current`, or of a cancelled one, where it is `cancelled`; and the open rows are the other
  -- unpaid ones.
  pub rounds_placed :
      All IsCompleted answer.rounds
      × All IsCurrent (option_list answer.current_round)
      × All IsOpen answer.open_rounds
  rounds_placed =
      let (cur, opn) = settled c_round d_round circle payouts contributions defaults in
      rw (cur, opn, rounds_lem c_round d_round circle payouts contributions defaults)
        (IsCompleted-placed, IsCurrent-placed, IsOpen-placed)

  keep-unpaid :
      (k : ℕ) (ds : List D)
      → keep
          (is_at d_round k)
          (keep (λ d. not (is_some (get (d_round d) (build_payout_index payouts)))) ds)
        ≡ (if is_paid k then [] else keep (is_at d_round k) ds)
  keep-unpaid k [] = ground arith
  keep-unpaid k (d ∷ ds) =
      ground (arith, keep-unpaid k ds, get-build_payout_index payouts (d_round d))

  -- The pending defaults of a round are all of its defaults, in order, if the round has no payout,
  -- and none if it has one.
  pub pending_defaults_at :
      (k : ℕ)
      → keep (is_at d_round k) answer.pending_defaults
        ≡ (if is_paid k then [] else keep (is_at d_round k) defaults)
  unfolding group_circle_rounds
  pending_defaults_at k = keep-unpaid k defaults
