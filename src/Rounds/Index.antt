-- ===== src/Rounds/Index.antt =====
-- indexer/src/groupRounds.ts: what the indexes by round hold, for each round.
use circleup.Prelude.{
  ℕ, ◌+◌, ◌≤◌, ◌≡◌, refl, sym, Bool, true, false, ◌||◌, Option, none, some, List, [], ◌∷◌, ◌++◌,
  any, keep, ◌==◌, if◌then◌else◌, is_some, arith, inl, inr, keep-true, keep-false, Bool-cases, All,
}
use mathlib.Core.List.{append-nil, append_assoc}
use circleup.Rounds.{
  RoundPayoutFields, get, keys, push_row, group_from, group_by_round_index, payouts_from,
  build_payout_index, add_key, add_keys, insert_by, sort_by, rows_at,
}

-- How often, and whether, a round index is listed.
abbrev pub count : ℕ → List ℕ → ℕ
count k [] = 0
count k (j ∷ js) = (if j == k then 1 else 0) + count k js

abbrev pub includes : ℕ → List ℕ → Bool
includes k js = any (λ j. j == k) js

abbrev pub once : Bool → ℕ
once true = 1
once false = 0

module _ {T : Type 0} (round_index : T → ℕ) where
  abbrev pub is_at : ℕ → T → Bool
  is_at k row = round_index row == k

  rows_at-push_row :
      (k : ℕ) (row : T) (m : List (ℕ × List T))
      → rows_at k (push_row round_index row m)
        ≡ (if is_at k row then rows_at k m ++ row ∷ [] else rows_at k m)
  unfolding push_row rows_at get
  rows_at-push_row k row [] = ground arith
  rows_at-push_row k row ((j, bucket) ∷ m) = ground (arith, rows_at-push_row k row m)

  rows_at-group_from :
      (k : ℕ) (rows : List T) (m : List (ℕ × List T))
      → rows_at k (group_from round_index m rows) ≡ rows_at k m ++ keep (is_at k) rows
  unfolding group_from
  rows_at-group_from k [] m = sym (append-nil _)
  rows_at-group_from k (row ∷ rows) m = elim (Bool-cases (is_at k row)) [
    | inl here ↦
        rw
          (
            rows_at-group_from k rows (push_row round_index row m),
            keep-true (is_at k) row rows here,
          )
          (ground (
            arith,
            rows_at-push_row k row m,
            append_assoc (rows_at k m) (row ∷ []) (keep (is_at k) rows),
          ))
    | inr there ↦
        rw
          (
            rows_at-group_from k rows (push_row round_index row m),
            keep-false (is_at k) row rows there,
          )
          (ground (arith, rows_at-push_row k row m))
  ]

  -- The bucket of a round holds the rows of that round, all of them and in their order.
  pub rows_at-group_by_round_index :
      (rows : List T) (k : ℕ)
      → rows_at k (group_by_round_index round_index rows) ≡ keep (is_at k) rows
  unfolding group_by_round_index rows_at get
  rows_at-group_by_round_index rows k = rows_at-group_from k rows []

  includes-push_row :
      (k : ℕ) (row : T) (m : List (ℕ × List T))
      → includes k (keys (push_row round_index row m)) ≡ is_at k row || includes k (keys m)
  unfolding push_row keys
  includes-push_row k row [] = ground arith
  includes-push_row k row ((j, bucket) ∷ m) = ground (arith, includes-push_row k row m)

  includes-group_from :
      (k : ℕ) (rows : List T) (m : List (ℕ × List T))
      → includes k (keys (group_from round_index m rows))
        ≡ includes k (keys m) || any (is_at k) rows
  unfolding group_from
  includes-group_from k [] m = ground arith
  includes-group_from k (row ∷ rows) m =
      ground
        (arith, includes-group_from k rows (push_row round_index row m), includes-push_row k row m)

  pub includes-group_by_round_index :
      (rows : List T) (k : ℕ)
      → includes k (keys (group_by_round_index round_index rows)) ≡ any (is_at k) rows
  unfolding group_by_round_index keys
  includes-group_by_round_index rows k = includes-group_from k rows []

-- The first payout row of a round.
abbrev pub first_payout : ℕ → List RoundPayoutFields → Option RoundPayoutFields
first_payout k [] = none
first_payout k (p ∷ ps) = if p.round_index == k then some p else first_payout k ps

abbrev or_first : Option RoundPayoutFields → Option RoundPayoutFields → Option RoundPayoutFields
or_first none q = q
or_first (some p) q = some p

get-append :
    (k j : ℕ) (p : RoundPayoutFields) (m : List (ℕ × RoundPayoutFields))
    → get k (m ++ (j, p) ∷ []) ≡ or_first (get k m) (if j == k then some p else none)
unfolding get
get-append k j p [] = ground arith
get-append k j p ((i, q) ∷ m) = ground (arith, get-append k j p m)

get-payouts_from :
    (k : ℕ) (ps : List RoundPayoutFields) (m : List (ℕ × RoundPayoutFields))
    → get k (payouts_from m ps) ≡ or_first (get k m) (first_payout k ps)
unfolding payouts_from
get-payouts_from k [] m = ground arith
get-payouts_from k (p ∷ ps) m = elim (Bool-cases (is_some (get p.round_index m))) [
  | inl old ↦ rw old (ground (arith, get-payouts_from k ps m))
  | inr new ↦ rw new (
      ground (
        arith,
        get-payouts_from k ps (m ++ (p.round_index, p) ∷ []),
        get-append k p.round_index p m,
      ))
]

-- The payout index holds the first payout row of each round.
pub get-build_payout_index :
    (ps : List RoundPayoutFields) (k : ℕ) → get k (build_payout_index ps) ≡ first_payout k ps
unfolding build_payout_index
get-build_payout_index ps k = get-payouts_from k ps []

pub includes-keys :
    {V : Type 0} (k : ℕ) (m : List (ℕ × V)) → includes k (keys m) ≡ is_some (get k m)
unfolding get keys
includes-keys k [] = refl
includes-keys k ((j, v) ∷ m) = ground (arith, includes-keys k m)

includes-append : (k j : ℕ) (s : List ℕ) → includes k (s ++ j ∷ []) ≡ includes k s || (j == k)
includes-append k j [] = ground arith
includes-append k j (i ∷ s) = ground (arith, includes-append k j s)

count-append :
    (k j : ℕ) (s : List ℕ) → count k (s ++ j ∷ []) ≡ count k s + (if j == k then 1 else 0)
count-append k j [] = ground arith
count-append k j (i ∷ s) = ground (arith, count-append k j s)

pub includes-add_key : (k j : ℕ) (s : List ℕ) → includes k (add_key s j) ≡ includes k s || (j == k)
unfolding add_key
includes-add_key k j s = ground (arith, includes-append k j s)

pub count-add_key :
    (k j : ℕ) (s : List ℕ)
    → count k s ≡ once (includes k s)
    → count k (add_key s j) ≡ once (includes k (add_key s j))
unfolding add_key
count-add_key k j s h = ground (arith, includes-append k j s, count-append k j s)

pub includes-add_keys :
    (k : ℕ) (js s : List ℕ) → includes k (add_keys s js) ≡ includes k s || includes k js
unfolding add_keys
includes-add_keys k [] s = ground arith
includes-add_keys k (j ∷ js) s =
    ground (arith, includes-add_keys k js (add_key s j), includes-add_key k j s)

pub count-add_keys :
    (k : ℕ) (js s : List ℕ)
    → count k s ≡ once (includes k s)
    → count k (add_keys s js) ≡ once (includes k (add_keys s js))
unfolding add_keys
count-add_keys k [] s h = h
count-add_keys k (j ∷ js) s h = count-add_keys k js (add_key s j) (count-add_key k j s h)

pub count-insert_by : (k x : ℕ) (xs : List ℕ) → count k (insert_by (λ j. j) x xs) ≡ count k (x ∷ xs)
unfolding insert_by
count-insert_by k x [] = refl
count-insert_by k x (y ∷ ys) = ground (arith, count-insert_by k x ys)

-- Sorting the indexes loses and repeats none.
pub count-sort_by : (k : ℕ) (xs : List ℕ) → count k (sort_by (λ j. j) xs) ≡ count k xs
unfolding sort_by
count-sort_by k [] = refl
count-sort_by k (x ∷ xs) =
    ground (arith, count-sort_by k xs, count-insert_by k x (sort_by (λ j. j) xs))

abbrev pub Ascending : List ℕ → Type 0
Ascending [] = Unit
Ascending (x ∷ xs) = All (λ y. x ≤ y) xs × Ascending xs

All-le_trans : (x y : ℕ) (xs : List ℕ) → x ≤ y → All (λ z. y ≤ z) xs → All (λ z. x ≤ z) xs
All-le_trans x y [] h k = tt
All-le_trans x y (z ∷ xs) h (k, ks) = (omega arith, All-le_trans x y xs h ks)

All-insert_by :
    (x y : ℕ) (xs : List ℕ)
    → y ≤ x
    → All (λ z. y ≤ z) xs
    → All (λ z. y ≤ z) (insert_by (λ j. j) x xs)
unfolding insert_by
All-insert_by x y [] h k = (h, tt)
All-insert_by x y (z ∷ xs) h (k, ks) = ground (arith, All-insert_by x y xs h ks)

insert_by-Ascending : (x : ℕ) (xs : List ℕ) → Ascending xs → Ascending (insert_by (λ j. j) x xs)
unfolding insert_by
insert_by-Ascending x [] h = (tt, tt)
insert_by-Ascending x (y ∷ ys) (k, h) =
    ground (arith, All-le_trans x y ys, All-insert_by x y ys, insert_by-Ascending x ys h)

pub sort_by-Ascending : (xs : List ℕ) → Ascending (sort_by (λ j. j) xs)
unfolding sort_by
sort_by-Ascending [] = tt
sort_by-Ascending (x ∷ xs) = insert_by-Ascending x _ (sort_by-Ascending xs)
