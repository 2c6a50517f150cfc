-- ===== src/Rounds/Keys.antt =====
-- indexer/src/groupRounds.ts: a property of every row's key holds of the keys of the buckets, also
-- once they are sorted.
use circleup.Prelude.{ℕ, List, [], ◌∷◌, ◌==◌, leb, All, Bool-cases, inl, inr}
use circleup.Rounds.{group_by_round_index, group_from, push_row, keys, sort_by, insert_by}

module _ {ℓ} {T : Type 0} (P : ℕ → Type ℓ) (round_index : T → ℕ) where
  All-push_row :
      (r : T) (m : List (ℕ × List T))
      → P (round_index r)
      → All P (keys m)
      → All P (keys (push_row round_index r m))
  unfolding keys push_row
  All-push_row r [] h k = (h, tt)
  All-push_row r ((j, bucket) ∷ m) h (k, ks) = elim (Bool-cases (j == round_index r)) [
    | inl e ↦ rw e (k, ks)
    | inr e ↦ rw e (k, All-push_row r m h ks)
  ]

  All-group_from :
      (rows : List T) (m : List (ℕ × List T))
      → All (λ r. P (round_index r)) rows
      → All P (keys m)
      → All P (keys (group_from round_index m rows))
  unfolding group_from
  All-group_from [] m h k = k
  All-group_from (r ∷ rows) m (h, hs) k =
      All-group_from rows (push_row round_index r m) hs (All-push_row r m h k)

  All-insert_by : (x : ℕ) (xs : List ℕ) → P x → All P xs → All P (insert_by (λ j. j) x xs)
  unfolding insert_by
  All-insert_by x [] h k = (h, tt)
  All-insert_by x (y ∷ ys) h (k, ks) = elim (Bool-cases (leb x y)) [
    | inl e ↦ rw e (h, (k, ks))
    | inr e ↦ rw e (k, All-insert_by x ys h ks)
  ]

  All-sort_by : (xs : List ℕ) → All P xs → All P (sort_by (λ j. j) xs)
  unfolding sort_by
  All-sort_by [] h = tt
  All-sort_by (x ∷ xs) (h, hs) = All-insert_by x (sort_by (λ j. j) xs) h (All-sort_by xs hs)

  pub All-sorted_keys :
      (rows : List T)
      → All (λ r. P (round_index r)) rows
      → All P (sort_by (λ j. j) (keys (group_by_round_index round_index rows)))
  unfolding group_by_round_index keys
  All-sorted_keys rows h =
      All-sort_by (keys (group_by_round_index round_index rows)) (All-group_from rows [] h tt)
