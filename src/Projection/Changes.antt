-- ===== src/Projection/Changes.antt =====
-- What the handlers compute before and between their statements. The messages of the handlers' own
-- errors are shortened.
use circleup.Prelude.{
  ℕ, String, Bool, false, Option, none, some, List, get_elem?, if◌then◌else◌, str_eq,
}
use circleup.Failures.{HandlerError}
use circleup.Ingest.{Handled, done, threw}
use circleup.Events.{Value}
use circleup.Events.Classify.{ClassifiableEvent, items_of}
use circleup.Projection.{CircleStatus, pending, closed, CircleRow, Tables}
use circleup.Projection.Statements.{insert_rotation, sql_error}
use circleup.Projection.Statements.Values.{with_numeric, number_of}

-- An event of the SDK, decoded, with `now`, what NOW() is in the transaction that handles it.
pub record SdkEvent : Type 0 where
  pub decoded : ClassifiableEvent
  pub ledger : ℕ
  pub tx_hash : String
  pub now : ℕ

abbrev pub plain_error : String → HandlerError
plain_error message = record { code = none; name = "Error"; message = message }

-- `value[i]` of the payload.
abbrev pub field : SdkEvent → ℕ → Option Value
field ev i = get_elem? (items_of ev.decoded.payload) i

abbrev pub new_circle : String → String → String → ℕ → ℕ → CircleRow
new_circle address creator round_amount member_count ledger = record {
  address = address;
  creator = creator;
  round_amount = round_amount;
  member_count = member_count;
  total_rounds = member_count;
  status = pending;
  current_round = 0;
  created_ledger = ledger;
  paused = false;
  total_released = none;
  close_reason = none;
}

-- SET creator = EXCLUDED.creator WHERE circles.creator = ''
abbrev pub fill_creator : String → CircleRow → CircleRow
fill_creator creator c = if str_eq c.creator "" then record c { creator = creator } else c

-- SET round_amount, member_count, total_rounds
abbrev pub fill_terms : String → ℕ → CircleRow → CircleRow
fill_terms round_amount member_count c = record c {
  round_amount = round_amount;
  member_count = member_count;
  total_rounds = member_count;
}

-- SET status
abbrev pub with_status : CircleStatus → CircleRow → CircleRow
with_status s c = record c { status = s }

-- SET current_round
abbrev pub at_round : ℕ → CircleRow → CircleRow
at_round n c = record c { current_round = n }

-- SET paused
abbrev pub with_paused : Bool → CircleRow → CircleRow
with_paused b c = record c { paused = b }

-- SET status = 'Closed', total_released, close_reason
abbrev pub close_with : String → String → CircleRow → CircleRow
close_with released reason c = record c {
  status = closed;
  total_released = some released;
  close_reason = some reason;
}

-- The rows of the rotation, where the payload carries it.
unfoldable pub rotation_of : String → Option (List String) → Tables → Handled Tables
rotation_of circle none t = done t
rotation_of circle (some members) t = insert_rotation circle members 0 t

-- `value[3] !== undefined ? String(value[3]) : null`, as a NUMERIC
unfoldable pub with_expected : Option Value → (Option String → Handled Tables) → Handled Tables
with_expected none next = next none
with_expected (some v) next = with_numeric v (λ s. next (some s))

-- `value[4] !== undefined ? Number(value[4]) : 0`
unfoldable pub count_or_zero : Option Value → Option ℕ
count_or_zero none = some 0
count_or_zero (some v) = number_of (some v)

-- The column recipient is NOT NULL.
unfoldable pub with_recipient : Option String → (String → Handled Tables) → Handled Tables
with_recipient none next = threw (sql_error "23502")
with_recipient (some r) next = next r
