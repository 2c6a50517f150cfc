-- ===== src/Projection/Statements/Values.antt =====
-- A field of a payload as a parameter of a statement. For a field of another kind than the
-- registry's, which the classification lets no handler see, the model is narrower than Postgres: it
-- refuses a negative number as an INTEGER, and a text as an INTEGER or a NUMERIC, where Postgres
-- takes a negative number or a numeric text. Integral numbers are taken below 10 ^ 21.
use circleup.Prelude.{
  ℕ, suc, String, Bool, ◌||◌, Option, none, some, List, [], ◌∷◌, leb, if◌then◌else◌, str_eq,
}
use Prim.Native.String
use circleup.Prelude.Text.{join, decimal}
use circleup.Failures.{HandlerError}
use circleup.Ingest.{Handled, threw}
use circleup.Events.{
  Value, text, number, negative_number, fraction, bigint, negative_bigint, array, other, Values,
  no_values, more_values,
}
use circleup.Projection.{max_integer}
use circleup.Projection.Statements.{sql_error}

abbrev minus : ℕ → String
minus n = String.◌++◌ "-" (decimal (suc n))

abbrev is_nothing : String → Bool
is_nothing s = str_eq s "null" || str_eq s "undefined"

-- `String(v)`; an array leaves out what is null or undefined.
unfoldable mutual
  unfolding join decimal

  pub text_of : Value → String
  text_of (text s) = s
  text_of (number n) = decimal n
  text_of (negative_number n) = minus n
  text_of (fraction s) = s
  text_of (other s) = s
  text_of (bigint n) = decimal n
  text_of (negative_bigint n) = minus n
  text_of (array vs) = join "," (texts_of vs)

  texts_of : Values → List String
  texts_of no_values = []
  texts_of (more_values v vs) =
      let rest = texts_of vs in
      let s = text_of v in
      elim v [ other t ↦ (if is_nothing t then "" else t) ∷ rest | _ ↦ s ∷ rest ]

-- `String(value[i])`, also where there is no such element.
unfoldable pub string_of : Option Value → String
unfolding text_of
string_of none = "undefined"
string_of (some v) = text_of v

-- `value[i] !== undefined ? String(value[i]) : null`
unfoldable pub string_or_null : Option Value → Option String
unfolding text_of
string_or_null none = none
string_or_null (some v) = some (text_of v)

-- `String` of a topic, where null and undefined are empty.
unfoldable pub topic_text : Option Value → String
unfolding text_of
topic_text none = ""
topic_text (some (other s)) = if is_nothing s then "" else s
topic_text (some v) = text_of v

abbrev pub invalid_text : HandlerError
invalid_text = sql_error "22P02"

-- `Number(value[i])` as an INTEGER.
unfoldable pub number_of : Option Value → Option ℕ
number_of (some (number n)) = some n
number_of (some (bigint n)) = some n
number_of _ = none

module _ {T : Type 0} where
  unfoldable pub in_integer : ℕ → (ℕ → Handled T) → Handled T
  in_integer n next = if leb n max_integer then next n else threw (sql_error "22003")

  unfoldable pub with_integer : Option ℕ → (ℕ → Handled T) → Handled T
  unfolding in_integer
  with_integer none next = threw invalid_text
  with_integer (some n) next = in_integer n next

  -- A NUMERIC, as the text that is sent.
  unfoldable pub with_numeric : Value → (String → Handled T) → Handled T
  with_numeric (number n) next = next (decimal n)
  with_numeric (bigint n) next = next (decimal n)
  with_numeric (negative_number n) next = next (minus n)
  with_numeric (negative_bigint n) next = next (minus n)
  with_numeric _ next = threw invalid_text

  -- `value[i].toString()`, which throws where there is no such element.
  unfoldable pub with_amount : Option Value → (String → Handled T) → Handled T
  unfolding with_numeric
  with_amount none next = threw (record { code = none; name = "TypeError"; message = "" })
  with_amount (some v) next = with_numeric v next

  -- `value[i] !== undefined ? String(value[i]) : "0"`
  unfoldable pub with_amount_or_zero : Option Value → (String → Handled T) → Handled T
  unfolding with_numeric
  with_amount_or_zero none next = next "0"
  with_amount_or_zero (some v) next = with_numeric v next
