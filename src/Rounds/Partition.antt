-- ===== src/Rounds/Partition.antt =====
-- indexer/src/groupRounds.ts, steps 3 and 5: the set of round indexes, and the three buckets of a
-- list of rounds.
use circleup.Prelude.{
  ℕ, ◌+◌, ◌≤◌, ◌≡◌, refl, Bool, true, ◌&&◌, ◌||◌, Option, none, some, List, [], ◌∷◌, keep, ◌==◌,
  arith, inl, inr, Bool-cases, All, keep-true, keep-false, length,
}
use circleup.Rounds.{
  CircleRoundContext, GroupedRound, add_keys, has_current, known_keys, settle_current, is_completed,
  is_current, is_open,
}
use circleup.Rounds.Index.{
  count, includes, once, includes-add_key, count-add_key, includes-add_keys, count-add_keys,
  Ascending,
}

module _ {C D : Type 0} where
  abbrev pub indices : List (GroupedRound C D) → List ℕ
  indices [] = []
  indices (r ∷ rs) = r.round_index ∷ indices rs

  abbrev pub option_list : Option (GroupedRound C D) → List (GroupedRound C D)
  option_list none = []
  option_list (some r) = r ∷ []

  -- The three buckets of a list of rounds.
  abbrev pub completed_of : List (GroupedRound C D) → List (GroupedRound C D)
  completed_of = keep (λ r. is_completed r.status)

  abbrev pub current_of : List (GroupedRound C D) → List (GroupedRound C D)
  current_of = keep (λ r. is_current r.status)

  abbrev pub open_of : List (GroupedRound C D) → List (GroupedRound C D)
  open_of = keep (λ r. is_open r.status)

  pub count-partition :
      (k : ℕ) (rs : List (GroupedRound C D))
      → count k (indices (completed_of rs))
          + count k (indices (current_of rs))
          + count k (indices (open_of rs))
        ≡ count k (indices rs)
  count-partition k [] = omega arith
  count-partition k (r ∷ rs) = ground (arith, count-partition k rs)

  pub All-keep :
      (P : GroupedRound C D → Type 0) (p : GroupedRound C D → Bool) (rs : List (GroupedRound C D))
      → All P rs
      → All (λ r. P r × (p r ≡ true)) (keep p rs)
  All-keep P p [] h = tt
  All-keep P p (r ∷ rs) (h, hs) = elim (Bool-cases (p r)) [
    | inl kept ↦ rw (keep-true p r rs kept) ((h, kept), All-keep P p rs hs)
    | inr dropped ↦ rw (keep-false p r rs dropped) (All-keep P p rs hs)
  ]

  pub All-indices-keep :
      (x : ℕ) (p : GroupedRound C D → Bool) (rs : List (GroupedRound C D))
      → All (λ y. x ≤ y) (indices rs)
      → All (λ y. x ≤ y) (indices (keep p rs))
  All-indices-keep x p [] h = tt
  All-indices-keep x p (r ∷ rs) (h, hs) = elim (Bool-cases (p r)) [
    | inl kept ↦ rw (keep-true p r rs kept) (h, All-indices-keep x p rs hs)
    | inr dropped ↦ rw (keep-false p r rs dropped) (All-indices-keep x p rs hs)
  ]

  pub keep-Ascending :
      (p : GroupedRound C D → Bool) (rs : List (GroupedRound C D))
      → Ascending (indices rs)
      → Ascending (indices (keep p rs))
  keep-Ascending p [] h = tt
  keep-Ascending p (r ∷ rs) (h, hs) = elim (Bool-cases (p r)) [
    | inl kept ↦
        rw (keep-true p r rs kept) (All-indices-keep r.round_index p rs h, keep-Ascending p rs hs)
    | inr dropped ↦ rw (keep-false p r rs dropped) (keep-Ascending p rs hs)
  ]

  pub settle_current_single :
      (cs os : List (GroupedRound C D))
      → length cs ≤ 1
      → (option_list (settle_current cs os).0 ≡ cs) × ((settle_current cs os).1 ≡ os)
  unfolding settle_current
  settle_current_single [] os h = (refl, refl)
  settle_current_single (c ∷ []) os h = (refl, refl)
  settle_current_single (c ∷ d ∷ cs) os h = absurd (omega arith)

module _ (k : ℕ) (ps cs ds : List ℕ) where
  pub includes-added :
      includes k (add_keys (add_keys (add_keys [] ps) cs) ds)
      ≡ includes k ps || includes k cs || includes k ds
  includes-added = ground (
    arith,
    includes-add_keys k ds (add_keys (add_keys [] ps) cs),
    includes-add_keys k cs (add_keys [] ps),
    includes-add_keys k ps [],
  )

  pub count-added :
      count k (add_keys (add_keys (add_keys [] ps) cs) ds)
      ≡ once (includes k (add_keys (add_keys (add_keys [] ps) cs) ds))
  count-added = count-add_keys k ds _ (count-add_keys k cs _ (count-add_keys k ps [] refl))

  pub includes-known_keys :
      (circle : CircleRoundContext)
      → includes k (known_keys circle ps cs ds)
        ≡ (includes k ps || includes k cs || includes k ds)
          || (has_current circle && (circle.current_round == k))
  includes-known_keys circle = elim (Bool-cases (has_current circle)) [
    | inl here ↦ rw here (
        ground (
          arith,
          includes-added,
          includes-add_key k circle.current_round (add_keys (add_keys (add_keys [] ps) cs) ds),
        ))
    | inr away ↦ rw away (ground (arith, includes-added))
  ]

  pub count-known_keys :
      (circle : CircleRoundContext)
      → count k (known_keys circle ps cs ds) ≡ once (includes k (known_keys circle ps cs ds))
  count-known_keys circle = elim (Bool-cases (has_current circle)) [
    | inl here ↦ rw here (count-add_key k circle.current_round _ count-added)
    | inr away ↦ rw away count-added
  ]
