-- ===== src/Projection/Payloads/Rules.antt =====
-- indexer/src/indexer.ts, the statements of the handlers: which errors they end in.
use circleup.Prelude.{
  ℕ, ◌≡◌, refl, String, Bool, true, false, ◌||◌, Option, none, some, List, [], ◌∷◌, leb,
  if◌then◌else◌, str_eq, arith,
}
use circleup.Failures.{HandlerError}
use circleup.Ingest.{Handled, done, threw}
use circleup.Events.{
  Value, text, number, negative_number, fraction, bigint, negative_bigint, array, other, u32, i128,
  check_field_kind,
}
use circleup.Projection.{
  Tables, MemberRow, ContributionRow, PayoutRow, DefaultRow, AuditRow, max_integer,
}
use circleup.Projection.Sql.{◌then_do◌}
use circleup.Projection.Statements.{
  insert_contribution, insert_payout, upsert_payout, insert_audit, insert_default, insert_member,
  unjoined, insert_rotation, count_default,
}
use circleup.Projection.Statements.Values.{
  number_of, in_integer, with_integer, with_numeric, with_amount, with_amount_or_zero,
}
use circleup.Projection.Changes.{rotation_of, with_expected, count_or_zero, with_recipient}
use circleup.Projection.Payloads.{HasKind}

abbrev has_state : String → Option String → Bool
has_state s none = false
has_state s (some t) = str_eq s t

-- Postgres refuses the text of a value (22P02), or a method of a missing value is called.
abbrev is_mistyped : HandlerError → Bool
is_mistyped e = has_state "22P02" e.code || str_eq e.name "TypeError"

abbrev pub IsTyped : Handled Tables → Type 0
IsTyped (done t) = Unit
IsTyped (threw e) = is_mistyped e ≡ false

pub then_do-IsTyped :
    (first : Handled Tables) (next : Tables → Handled Tables)
    → IsTyped first
    → ((t : Tables) → IsTyped (next t))
    → IsTyped (first then_do next)
then_do-IsTyped (done t) next h k = k t
then_do-IsTyped (threw e) next h k = h

pub if-IsTyped :
    (b : Bool) (x y : Handled Tables) → IsTyped x → IsTyped y → IsTyped (if b then x else y)
if-IsTyped true x y h k = h
if-IsTyped false x y h k = k

pub in_integer-IsTyped :
    (n : ℕ) (next : ℕ → Handled Tables) → ((m : ℕ) → IsTyped (next m)) → IsTyped (in_integer n next)
unfolding in_integer
in_integer-IsTyped n next h = if-IsTyped (leb n max_integer) _ _ (h n) refl

pub integer-IsTyped :
    (o : Option Value) (next : ℕ → Handled Tables)
    → HasKind u32 o
    → ((n : ℕ) → IsTyped (next n))
    → IsTyped (with_integer (number_of o) next)
unfolding with_integer number_of check_field_kind
integer-IsTyped none next k h = absurd k
integer-IsTyped (some (number n)) next k h = in_integer-IsTyped n next h
integer-IsTyped (some (text s)) next k h = ground (arith, k)
integer-IsTyped (some (negative_number n)) next k h = ground (arith, k)
integer-IsTyped (some (fraction s)) next k h = ground (arith, k)
integer-IsTyped (some (other s)) next k h = ground (arith, k)
integer-IsTyped (some (bigint n)) next k h = ground (arith, k)
integer-IsTyped (some (negative_bigint n)) next k h = ground (arith, k)
integer-IsTyped (some (array vs)) next k h = ground (arith, k)

pub count-IsTyped :
    (o : Option Value) (next : ℕ → Handled Tables)
    → HasKind u32 o
    → ((n : ℕ) → IsTyped (next n))
    → IsTyped (with_integer (count_or_zero o) next)
unfolding count_or_zero
count-IsTyped none next k h = absurd k
count-IsTyped (some v) next k h = integer-IsTyped (some v) next k h

pub numeric-IsTyped :
    (v : Value) (next : String → Handled Tables)
    → HasKind i128 (some v)
    → ((s : String) → IsTyped (next s))
    → IsTyped (with_numeric v next)
unfolding with_numeric check_field_kind
numeric-IsTyped (number n) next k h = h _
numeric-IsTyped (bigint n) next k h = h _
numeric-IsTyped (negative_number n) next k h = h _
numeric-IsTyped (negative_bigint n) next k h = h _
numeric-IsTyped (text s) next k h = ground (arith, k)
numeric-IsTyped (fraction s) next k h = ground (arith, k)
numeric-IsTyped (other s) next k h = ground (arith, k)
numeric-IsTyped (array vs) next k h = ground (arith, k)

pub amount-IsTyped :
    (o : Option Value) (next : String → Handled Tables)
    → HasKind i128 o
    → ((s : String) → IsTyped (next s))
    → IsTyped (with_amount o next)
unfolding with_amount
amount-IsTyped none next k h = absurd k
amount-IsTyped (some v) next k h = numeric-IsTyped v next k h

pub amount_or_zero-IsTyped :
    (o : Option Value) (next : String → Handled Tables)
    → HasKind i128 o
    → ((s : String) → IsTyped (next s))
    → IsTyped (with_amount_or_zero o next)
unfolding with_amount_or_zero
amount_or_zero-IsTyped none next k h = absurd k
amount_or_zero-IsTyped (some v) next k h = numeric-IsTyped v next k h

pub expected-IsTyped :
    (o : Option Value) (next : Option String → Handled Tables)
    → HasKind i128 o
    → ((s : Option String) → IsTyped (next s))
    → IsTyped (with_expected o next)
unfolding with_expected
expected-IsTyped none next k h = absurd k
expected-IsTyped (some v) next k h = numeric-IsTyped v (λ s. next (some s)) k (λ s. h (some s))

pub recipient-IsTyped :
    (o : Option String) (next : String → Handled Tables)
    → ((s : String) → IsTyped (next s))
    → IsTyped (with_recipient o next)
unfolding with_recipient
recipient-IsTyped none next h = refl
recipient-IsTyped (some s) next h = h s

pub insert_contribution-IsTyped :
    (row : ContributionRow) (t : Tables) → IsTyped (insert_contribution row t)
unfolding insert_contribution
insert_contribution-IsTyped row t = ground arith

pub insert_payout-IsTyped : (row : PayoutRow) (t : Tables) → IsTyped (insert_payout row t)
unfolding insert_payout
insert_payout-IsTyped row t = ground arith

pub upsert_payout-IsTyped : (row : PayoutRow) (t : Tables) → IsTyped (upsert_payout row t)
unfolding upsert_payout
upsert_payout-IsTyped row t = ground arith

pub insert_audit-IsTyped : (row : AuditRow) (t : Tables) → IsTyped (insert_audit row t)
unfolding insert_audit
insert_audit-IsTyped row t = ground arith

pub insert_default-IsTyped : (row : DefaultRow) (t : Tables) → IsTyped (insert_default row t)
unfolding insert_default
insert_default-IsTyped row t = ground arith

pub insert_member-IsTyped : (row : MemberRow) (t : Tables) → IsTyped (insert_member row t)
unfolding insert_member
insert_member-IsTyped row t = ground arith

pub count_default-IsTyped :
    (circle member : String) (t : Tables) → IsTyped (count_default circle member t)
unfolding count_default
count_default-IsTyped circle member t = ground arith

pub rotation-IsTyped :
    (circle : String) (ms : List String) (from : ℕ) (t : Tables)
    → IsTyped (insert_rotation circle ms from t)
unfolding insert_rotation
rotation-IsTyped circle [] from t = tt
rotation-IsTyped circle (m ∷ ms) from t =
    then_do-IsTyped (insert_member (unjoined circle m from) t) _ (insert_member-IsTyped _ t)
      (rotation-IsTyped circle ms _)

pub rotation_of-IsTyped :
    (circle : String) (o : Option (List String)) (t : Tables) → IsTyped (rotation_of circle o t)
unfolding rotation_of
rotation_of-IsTyped circle none t = tt
rotation_of-IsTyped circle (some ms) t = rotation-IsTyped circle ms 0 t
