-- ===== src/Projection/Handlers.antt =====
-- The handlers of indexer/src/indexer.ts, in the order of that file.
use circleup.Prelude.{
  ℕ, ◌+◌, String, true, false, Option, none, some, get_elem?, or_else, if◌then◌else◌, str_eq,
}
use circleup.Prelude.Text.{decimal}
use circleup.Ingest.{Handled, threw}
use circleup.Events.{Value}
use circleup.Events.Parsers.{
  Initialized, Joined, CircleCreated, parse_initialized_event, parse_joined_event,
  parse_circle_created_event,
}
use circleup.Projection.Changes.{
  SdkEvent, plain_error, field, new_circle, fill_creator, fill_terms, with_status, at_round,
  with_paused, close_with, rotation_of, with_expected, count_or_zero, with_recipient,
}
use circleup.Projection.{active, completed, cancelled, Tables, was_cancelled, was_closed}
use circleup.Projection.Sql.{◌then_do◌}
use circleup.Projection.Statements.{
  insert_contribution, insert_payout, upsert_payout, insert_audit, insert_default, count_default,
  mark_joined, upsert_circle, update_circle, upsert_score,
}
use circleup.Projection.Statements.Values.{
  string_of, string_or_null, topic_text, number_of, with_integer, with_amount, with_amount_or_zero,
  in_integer,
}

unfoldable pub create_circle : SdkEvent → Option CircleCreated → Tables → Handled Tables
create_circle ev none t = threw (plain_error "factory/circle_created")
create_circle ev (some parsed) t =
    upsert_circle (fill_creator parsed.creator)
      (new_circle parsed.circle_address parsed.creator "0" 0 ev.ledger) t

unfoldable pub handle_factory_circle_created : SdkEvent → Tables → Handled Tables
handle_factory_circle_created ev t =
    create_circle ev (parse_circle_created_event ev.decoded.payload) t

unfoldable pub initialize_circle : String → ℕ → Option Initialized → Tables → Handled Tables
initialize_circle circle ledger none t = threw (plain_error "circle/initialized")
initialize_circle circle ledger (some parsed) t =
    upsert_circle (fill_terms (decimal parsed.round_amount) parsed.member_count)
      (new_circle circle "" (decimal parsed.round_amount) parsed.member_count ledger) t
    then_do rotation_of circle parsed.members

unfoldable pub handle_circle_initialized : String → SdkEvent → Tables → Handled Tables
handle_circle_initialized circle ev t =
    initialize_circle circle ev.ledger (parse_initialized_event ev.decoded.payload) t

unfoldable pub join_circle : ℕ → String → Option Joined → Tables → Handled Tables
join_circle now circle none t = threw (plain_error "circle/joined")
join_circle now circle (some parsed) t = in_integer parsed.join_order (λ order.
    mark_joined (plain_error "circle/joined: no circle_members row") now circle parsed.member order
      (decimal parsed.collateral) t)

unfoldable pub handle_circle_joined : String → SdkEvent → Tables → Handled Tables
handle_circle_joined circle ev t =
    join_circle ev.now circle (parse_joined_event ev.decoded.payload) t

unfoldable pub handle_circle_active : String → Tables → Handled Tables
handle_circle_active circle t = update_circle circle (with_status active) t

unfoldable pub handle_circle_contributed : String → SdkEvent → Tables → Handled Tables
handle_circle_contributed circle ev t = with_integer (number_of (field ev 2)) (λ round.
    with_amount_or_zero (field ev 3) (λ amount.
      insert_contribution
        (record {
          circle_address = circle;
          member_address = string_of (field ev 1);
          round_index = round;
          amount = amount;
          tx_hash = ev.tx_hash;
          ledger = ev.ledger;
        })
        t))

unfoldable pub handle_circle_payout : String → SdkEvent → Tables → Handled Tables
handle_circle_payout circle ev t = with_amount (field ev 2) (λ pot.
    with_integer (number_of (field ev 3)) (λ round.
      insert_payout
        (record {
          circle_address = circle;
          recipient = string_of (field ev 1);
          round_index = round;
          amount = pot;
          tx_hash = ev.tx_hash;
          ledger = ev.ledger;
          is_exceptional = false;
          defaulted_count = none;
        })
        t
      then_do λ t'. in_integer (round + 1) (λ next. update_circle circle (at_round next) t')))

unfoldable pub handle_circle_default : String → SdkEvent → Tables → Handled Tables
handle_circle_default circle ev t = with_amount (field ev 2) (λ penalty.
    with_integer (number_of (field ev 3)) (λ round.
      insert_default
        (record {
          circle_address = circle;
          member_address = string_of (field ev 1);
          round_index = round;
          penalty = penalty;
          tx_hash = ev.tx_hash;
          ledger = ev.ledger;
        })
        t
      then_do count_default circle (string_of (field ev 1))))

unfoldable pub handle_circle_completed : String → Tables → Handled Tables
handle_circle_completed circle t = update_circle circle (with_status completed) t

unfoldable pub handle_circle_cancelled : String → SdkEvent → Tables → Handled Tables
handle_circle_cancelled circle ev t =
    update_circle circle (with_status cancelled) t
    then_do insert_audit (record {
      circle_address = circle;
      event_type = was_cancelled;
      triggered_by = string_or_null (field ev 1);
      ledger = string_or_null (field ev 2);
      tx_hash = ev.tx_hash;
      total_released = none;
      total_expected_collateral = none;
      close_reason = none;
    })

unfoldable pub handle_circle_closed : String → SdkEvent → Tables → Handled Tables
handle_circle_closed circle ev t = with_amount_or_zero (field ev 2) (λ released.
    with_expected (field ev 3) (λ expected.
      update_circle circle (close_with released (or_else (string_or_null (field ev 4)) "unknown")) t
      then_do insert_audit (record {
        circle_address = circle;
        event_type = was_closed;
        triggered_by = string_or_null (field ev 1);
        ledger = some (decimal ev.ledger);
        tx_hash = ev.tx_hash;
        total_released = some released;
        total_expected_collateral = expected;
        close_reason = some (or_else (string_or_null (field ev 4)) "unknown");
      })))

unfoldable pub handle_circle_paused : String → Tables → Handled Tables
handle_circle_paused circle t = update_circle circle (with_paused true) t

unfoldable pub handle_circle_resumed : String → Tables → Handled Tables
handle_circle_resumed circle t = update_circle circle (with_paused false) t

unfoldable pub start_round : String → Option Value → Tables → Handled Tables
start_round circle none t = threw (plain_error "circle/round_started: missing round_index")
start_round circle (some v) t =
    with_integer (number_of (some v)) (λ round. update_circle circle (at_round round) t)

unfoldable pub handle_circle_round_started : String → SdkEvent → Tables → Handled Tables
handle_circle_round_started circle ev t = start_round circle (field ev 1) t

unfoldable pub settle_round : String → SdkEvent → Option Value → Tables → Handled Tables
settle_round circle ev none t =
    threw (plain_error "circle/exceptional_settlement: missing round_index")
settle_round circle ev (some v) t = with_integer (number_of (some v)) (λ round.
    with_amount_or_zero (field ev 2) (λ pot. with_integer (count_or_zero (field ev 4)) (λ count.
      with_recipient (string_or_null (field ev 1)) (λ recipient.
        upsert_payout
          (record {
            circle_address = circle;
            recipient = recipient;
            round_index = round;
            amount = pot;
            tx_hash = ev.tx_hash;
            ledger = ev.ledger;
            is_exceptional = true;
            defaulted_count = some count;
          })
          t))))

unfoldable pub handle_circle_exceptional_settlement : String → SdkEvent → Tables → Handled Tables
handle_circle_exceptional_settlement circle ev t = settle_round circle ev (field ev 3) t

unfoldable pub handle_reputation_score_updated : SdkEvent → Tables → Handled Tables
handle_reputation_score_updated ev t =
    with_integer (number_of (field ev 1)) (λ score. upsert_score (string_of (field ev 0)) score t)

unfoldable pub put_score : String → Option ℕ → Tables → Handled Tables
put_score member score t =
    let ran = with_integer score (λ n. upsert_score member n t) in
    if str_eq member ""
    then threw (plain_error "reputation/increment: missing or malformed member topic")
    else ran

-- The member is read from topic 1, which is the name of the event.
unfoldable pub handle_reputation_increment : SdkEvent → Tables → Handled Tables
handle_reputation_increment ev t =
    put_score (topic_text (get_elem? ev.decoded.topics 1)) (number_of (some ev.decoded.payload)) t
