-- ===== src/Events.antt =====
-- indexer/src/eventSchemas.ts, indexer/src/eventParsers.ts and `routeEvent` of indexer/src/indexer.ts:
-- which decoded events are projected. A value is what `scValToNative` gives: a text, an integral
-- number, any other number, a bigint, an array, or something else; the last two with what `String`
-- makes of them. The texts of the reasons are a
-- data type.
pub mod Registry
pub mod Classify
pub mod Parsers
pub mod Route
mod Tests
use circleup.Prelude.{ℕ, String, Bool, true, false, not, ◌&&◌, List, [], ◌∷◌, leb, all, str_eq}

mutual
  pub data Value : Type 0 where
    text : String → Value
    number negative_number : ℕ → Value
    fraction other : String → Value
    bigint negative_bigint : ℕ → Value
    array : Values → Value

  pub data Values : Type 0 where
    no_values : Values
    more_values : Value → Values → Values

abbrev pub list_of : Values → List Value
list_of no_values = []
list_of (more_values v vs) = v ∷ list_of vs

-- A negative integer `-(n + 1)` is `negative_number n` or `negative_bigint n`.
pub data FieldKind : Type 0 where
  address symbol u32 u64 i128 address_vec : FieldKind

-- `typeof v === "string" && v.length > 0`
abbrev pub is_filled_text : Value → Bool
is_filled_text (text s) = not (str_eq s "")
is_filled_text _ = false

-- `Number.MAX_SAFE_INTEGER`
abbrev pub max_safe : ℕ
max_safe = 9007199254740991

-- `checkFieldKind(kind, value) === null`
unfoldable pub check_field_kind : FieldKind → Value → Bool
check_field_kind address v = is_filled_text v
check_field_kind symbol v = is_filled_text v
check_field_kind u32 (number n) = leb n 4294967295
check_field_kind u32 _ = false
check_field_kind u64 (bigint n) = true
check_field_kind u64 (number n) = leb n max_safe
check_field_kind u64 _ = false
check_field_kind i128 (bigint n) = true
check_field_kind i128 (negative_bigint n) = true
check_field_kind i128 (number n) = leb n max_safe
check_field_kind i128 (negative_number n) = leb n 9007199254740990
check_field_kind i128 _ = false
check_field_kind address_vec (array vs) = all is_filled_text (list_of vs)
check_field_kind address_vec _ = false
