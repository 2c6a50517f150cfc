-- ===== src/Rounds.antt =====
-- indexer/src/groupRounds.ts: one view per round from the payout, contribution and default rows of
-- a circle. A `Map` is the list of its entries in insertion order, a `Set` the list of its values;
-- the warnings on the console are left out.
pub mod Keys
pub mod Index
pub mod Partition
pub mod Rows
pub mod Laws
pub mod Placement
mod Tests
use circleup.Prelude.{
  ℕ, suc, String, Bool, true, false, not, ◌||◌, Option, none, some, List, [], ◌∷◌, ◌++◌, map, any,
  keep, leb, ◌==◌, if◌then◌else◌, str_eq, is_some,
}

pub data RoundStatus : Type 0 where
  completed current cancelled open_round : RoundStatus

pub record RoundPayoutFields : Type 0 where
  pub round_index : ℕ
  pub recipient : String
  pub amount : String
  pub tx_hash : String
  pub ledger : String

pub record CircleRoundContext : Type 0 where
  pub current_round : ℕ
  pub status : String

pub record GroupedRound (C D : Type 0) : Type 0 where
  pub round_index : ℕ
  pub status : RoundStatus
  pub recipient : Option String
  pub amount : Option String
  pub tx_hash : Option String
  pub ledger : Option String
  pub contributions : List C
  pub defaults : List D

pub record GroupedRoundsResult (C D : Type 0) : Type 0 where
  pub rounds : List (GroupedRound C D)
  pub current_round : Option (GroupedRound C D)
  pub open_rounds : List (GroupedRound C D)
  pub pending_defaults : List D

-- `map.get(k)` and `map.keys()`.
module _ {V : Type 0} where
  pub get : ℕ → List (ℕ × V) → Option V
  get k [] = none
  get k ((j, v) ∷ m) = if j == k then some v else get k m

  unfoldable pub keys : List (ℕ × V) → List ℕ
  keys [] = []
  keys ((k, v) ∷ m) = k ∷ keys m

module _ {T : Type 0} (round_index : T → ℕ) where
  -- One round of the loop of `groupByRoundIndex`: push to the bucket, or open a new one at the end.
  pub push_row : T → List (ℕ × List T) → List (ℕ × List T)
  push_row row [] = (round_index row, row ∷ []) ∷ []
  push_row row ((k, bucket) ∷ m) =
      if k == round_index row then (k, bucket ++ row ∷ []) ∷ m else (k, bucket) ∷ push_row row m

  pub group_from : List (ℕ × List T) → List T → List (ℕ × List T)
  group_from m [] = m
  group_from m (row ∷ rows) = group_from (push_row row m) rows

  unfoldable pub group_by_round_index : List T → List (ℕ × List T)
  unfolding group_from push_row
  group_by_round_index rows = group_from [] rows

abbrev pub same_round : ℕ → CircleRoundContext → Bool
same_round k circle = k == circle.current_round

unfoldable pub resolve_status : ℕ → Bool → CircleRoundContext → RoundStatus
resolve_status k true circle = completed
resolve_status k false circle =
    if same_round k circle
    then if str_eq circle.status "Cancelled"
      then cancelled
      else if str_eq circle.status "Active"
      then current
      else open_round
    else open_round

-- The first row of a round is kept, later ones are dropped.
pub payouts_from :
    List (ℕ × RoundPayoutFields) → List RoundPayoutFields → List (ℕ × RoundPayoutFields)
payouts_from m [] = m
payouts_from m (p ∷ ps) =
    payouts_from (if is_some (get p.round_index m) then m else m ++ (p.round_index, p) ∷ []) ps

pub build_payout_index : List RoundPayoutFields → List (ℕ × RoundPayoutFields)
unfolding payouts_from get
build_payout_index payouts = payouts_from [] payouts

-- `set.add(k)`, and the set of a list.
pub add_key : List ℕ → ℕ → List ℕ
add_key s k = if any (λ j. j == k) s then s else s ++ k ∷ []

pub add_keys : List ℕ → List ℕ → List ℕ
add_keys s [] = s
add_keys s (k ∷ ks) = add_keys (add_key s k) ks

-- `xs.sort((a, b) => key(a) - key(b))`, which is stable.
module _ {A : Type 0} (key : A → ℕ) where
  pub insert_by : A → List A → List A
  insert_by x [] = x ∷ []
  insert_by x (y ∷ ys) = if leb (key x) (key y) then x ∷ y ∷ ys else y ∷ insert_by x ys

  unfoldable pub sort_by : List A → List A
  unfolding insert_by
  sort_by [] = []
  sort_by (x ∷ xs) = insert_by x (sort_by xs)

abbrev pub is_completed : RoundStatus → Bool
is_completed completed = true
is_completed _ = false

abbrev pub is_current : RoundStatus → Bool
is_current current = true
is_current cancelled = true
is_current _ = false

abbrev pub is_open : RoundStatus → Bool
is_open open_round = true
is_open _ = false

-- `byRound.get(k) ?? []`
unfoldable pub rows_at : {T : Type 0} → ℕ → List (ℕ × List T) → List T
unfolding get
rows_at k m = elim (get k m) [ none ↦ [] | some rows ↦ rows ]

-- `payout?.field ?? null`
abbrev pub field_of : (RoundPayoutFields → String) → Option RoundPayoutFields → Option String
field_of field none = none
field_of field (some p) = some (field p)

-- `circle.status === "Active" || circle.status === "Cancelled"`
abbrev pub has_current : CircleRoundContext → Bool
has_current circle = str_eq circle.status "Active" || str_eq circle.status "Cancelled"

-- Step 3: every known round index, in the order of its first appearance.
abbrev pub known_keys : CircleRoundContext → List ℕ → List ℕ → List ℕ → List ℕ
known_keys circle ps cs ds =
    let seen = add_keys (add_keys (add_keys [] ps) cs) ds in
    if has_current circle then add_key seen circle.current_round else seen

module _ {C D : Type 0} where
  -- Step 4: the row of one round.
  pub to_round :
      CircleRoundContext
      → List (ℕ × RoundPayoutFields)
      → List (ℕ × List C)
      → List (ℕ × List D)
      → ℕ
      → GroupedRound C D
  unfolding get rows_at resolve_status
  to_round circle payout_by_round contrib_by_round defaults_by_round k =
      let payout = get k payout_by_round in
      record {
        round_index = k;
        status = resolve_status k (is_some payout) circle;
        recipient = field_of (λ p. p.recipient) payout;
        amount = field_of (λ p. p.amount) payout;
        tx_hash = field_of (λ p. p.tx_hash) payout;
        ledger = field_of (λ p. p.ledger) payout;
        contributions = rows_at k contrib_by_round;
        defaults = rows_at k defaults_by_round;
      }

  abbrev pub index_of : GroupedRound C D → ℕ
  index_of r = r.round_index

  abbrev pub demote : GroupedRound C D → GroupedRound C D
  demote r = record r { status = open_round }

  -- Step 5: one candidate is the current round; of several, the first is, and the others are
  -- demoted to open rounds.
  pub settle_current :
      List (GroupedRound C D)
      → List (GroupedRound C D)
      → Option (GroupedRound C D) × List (GroupedRound C D)
  settle_current [] open_rounds = (none, open_rounds)
  settle_current (r ∷ []) open_rounds = (some r, open_rounds)
  settle_current (r ∷ s ∷ more) open_rounds =
      (some r, sort_by index_of (open_rounds ++ map demote (s ∷ more)))

module _ {C D : Type 0} (c_round : C → ℕ) (d_round : D → ℕ) where
  -- Steps 1 to 4: all rounds, by ascending index.
  pub all_rounds :
      CircleRoundContext → List RoundPayoutFields → List C → List D → List (GroupedRound C D)
  all_rounds circle payouts contributions defaults =
      let ps = build_payout_index payouts in
      let cs = group_by_round_index c_round contributions in
      let ds = group_by_round_index d_round defaults in
      map (to_round circle ps cs ds)
        (sort_by (λ k. k) (known_keys circle (keys ps) (keys cs) (keys ds)))

  unfoldable pub group_circle_rounds :
      CircleRoundContext → List RoundPayoutFields → List C → List D → GroupedRoundsResult C D
  unfolding all_rounds build_payout_index group_by_round_index to_round sort_by insert_by
      settle_current add_keys add_key keys get rows_at resolve_status
  group_circle_rounds circle payouts contributions defaults =
      let rounds = all_rounds circle payouts contributions defaults in
      let settled =
        settle_current (keep (λ r. is_current r.status) rounds)
          (keep (λ r. is_open r.status) rounds) in
      record {
        rounds = keep (λ r. is_completed r.status) rounds;
        current_round = settled.0;
        open_rounds = settled.1;
        pending_defaults =
            keep (λ d. not (is_some (get (d_round d) (build_payout_index payouts)))) defaults;
      }
