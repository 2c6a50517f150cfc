-- ===== src/Events/Parsers.antt =====
-- indexer/src/eventParsers.ts: the data payloads of three events. A malformed payload is `none`.
pub mod Laws
use circleup.Prelude.{
  ℕ, suc, ◌+◌, String, Bool, true, false, not, ◌&&◌, ◌||◌, Option, none, some, List, [], ◌∷◌, all,
  any, length, ◌>>=◌, ltb, leb, ◌==◌, if◌then◌else◌, str_eq,
}
use circleup.Events.{
  Value, text, number, negative_number, bigint, negative_bigint, array, list_of, is_filled_text,
}

pub record Initialized : Type 0 where
  pub circle_address : String
  pub member_count : ℕ
  pub round_amount : ℕ
  pub members : Option (List String)

pub record Joined : Type 0 where
  pub circle_address : String
  pub member : String
  pub join_order : ℕ
  pub collateral : ℕ

pub record CircleCreated : Type 0 where
  pub circle_address : String
  pub creator : String
  pub circle_index : ℕ

-- A text that is not empty.
abbrev pub filled_text : Value → Option String
filled_text (text s) = if str_eq s "" then none else some s
filled_text _ = none

-- An integral number in a range.
abbrev pub number_in : ℕ → Option ℕ → Value → Option ℕ
number_in low none (number n) = if leb low n then some n else none
number_in low (some high) (number n) = if leb low n && leb n high then some n else none
number_in low high _ = none

-- A bigint or an integral number, from `low` on.
abbrev pub amount_from : ℕ → Value → Option ℕ
amount_from low (bigint n) = if leb low n then some n else none
amount_from low (number n) = if leb low n then some n else none
amount_from low _ = none

-- The texts of an array of texts that are not empty.
pub filled_texts : List Value → Option (List String)
filled_texts [] = some []
filled_texts (v ∷ vs) = do s ← filled_text v; ss ← filled_texts vs; some (s ∷ ss)

-- `new Set(xs).size === xs.length`
pub no_duplicates : List String → Bool
no_duplicates [] = true
no_duplicates (s ∷ ss) = not (any (λ t. str_eq t s) ss) && no_duplicates ss

abbrev pub check_members : ℕ → List String → Option (Option (List String))
check_members count ss =
    if not (length ss == count) then none else if no_duplicates ss then some (some ss) else none

-- The fourth field, where the payload has one.
pub parse_members : ℕ → List Value → Option (Option (List String))
unfolding filled_texts no_duplicates
parse_members count [] = some none
parse_members count (array vs ∷ rest) = do ss ← filled_texts (list_of vs); check_members count ss
parse_members count _ = none

pub parse_initialized_fields : List Value → Option Initialized
unfolding parse_members
parse_initialized_fields (a ∷ c ∷ r ∷ rest) = do
  circle_address ← filled_text a
  member_count ← number_in 2 (some 256) c
  round_amount ← amount_from 1 r
  members ← parse_members member_count rest
  some (record {
    circle_address = circle_address;
    member_count = member_count;
    round_amount = round_amount;
    members = members;
  })
parse_initialized_fields _ = none

unfoldable pub parse_initialized_event : Value → Option Initialized
unfolding parse_initialized_fields
parse_initialized_event (array vs) = parse_initialized_fields (list_of vs)
parse_initialized_event _ = none

pub parse_joined_fields : List Value → Option Joined
parse_joined_fields (a ∷ m ∷ j ∷ c ∷ rest) = do
  circle_address ← filled_text a
  member ← filled_text m
  join_order ← number_in 1 none j
  collateral ← amount_from 0 c
  some (record {
    circle_address = circle_address;
    member = member;
    join_order = join_order;
    collateral = collateral;
  })
parse_joined_fields _ = none

unfoldable pub parse_joined_event : Value → Option Joined
unfolding parse_joined_fields
parse_joined_event (array vs) = parse_joined_fields (list_of vs)
parse_joined_event _ = none

pub parse_circle_created_fields : List Value → Option CircleCreated
parse_circle_created_fields (a ∷ c ∷ i ∷ rest) = do
  circle_address ← filled_text a
  creator ← filled_text c
  circle_index ← number_in 0 none i
  some (record { circle_address = circle_address; creator = creator; circle_index = circle_index })
parse_circle_created_fields _ = none

unfoldable pub parse_circle_created_event : Value → Option CircleCreated
unfolding parse_circle_created_fields
parse_circle_created_event (array vs) = parse_circle_created_fields (list_of vs)
parse_circle_created_event _ = none
