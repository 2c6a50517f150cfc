-- ===== src/Events/Tests.antt =====
-- Events as the contracts emit them, through the registry, the parsers and the routing.
use circleup.Prelude.{◌≡◌, ◌≢◌, refl, true, false, some, List, [], ◌∷◌, arith, is_some}
use circleup.Events.{
  Value, Values, text, number, bigint, array, no_values, more_values, check_field_kind, address,
  u32,
}
use circleup.Events.Registry.{
  EventSchema, get_event_schema, factory_family, projected, FieldSchema, field_of, tuple_of,
}
use circleup.Events.Classify.{ClassifiableEvent, classify_event, match_tuple}
use circleup.Events.Classify.Laws.{IsSound, classify_event-IsSound, match_tuple_append, PayloadFits}
use circleup.Events.Parsers.{Initialized, parse_initialized_event, parse_circle_created_event}
use circleup.Events.Parsers.Laws.{IsInitialized, parse_initialized_sound, created_parses}
use circleup.Events.Route.{route_event, handled_by, circle_initialized, quarantined_no_handler}
use circleup.Events.Route.Laws.{route_event_handled}

abbrev members_value : Value
members_value = array (more_values (text "GA") (more_values (text "GB") no_values))

abbrev initialized_values : Values
initialized_values =
    more_values (text "CA")
      (more_values (number 2) (more_values (bigint 100) (more_values members_value no_values)))

abbrev initialized : ClassifiableEvent
initialized = record {
  topics = text "circle" ∷ text "initialized" ∷ [];
  payload = array initialized_values;
  contract_id = some "CA";
}

initialized_routed : route_event initialized ≡ some (handled_by circle_initialized)
unfolding route_event
initialized_routed = refl

classify_event-IsSound_example : IsSound initialized (classify_event initialized)
classify_event-IsSound_example = classify_event-IsSound initialized

abbrev circle_two : Initialized
circle_two = record {
  circle_address = "CA";
  member_count = 2;
  round_amount = 100;
  members = some ("GA" ∷ "GB" ∷ []);
}

initialized_parsed : parse_initialized_event (array initialized_values) ≡ some circle_two
unfolding parse_initialized_event
initialized_parsed = refl

parse_initialized_sound_example : IsInitialized circle_two
parse_initialized_sound_example =
    parse_initialized_sound (array initialized_values) circle_two initialized_parsed

abbrev created_values : Values
created_values =
    more_values (text "CA") (more_values (text "GA") (more_values (number 0) no_values))

abbrev newer_values : Values
newer_values =
    more_values (text "CA")
      (more_values (text "GA") (more_values (number 0) (more_values (number 9) no_values)))

abbrev created_fields : List FieldSchema
created_fields =
    field_of "circle_address" address
    ∷ field_of "creator" address
    ∷ field_of "circle_index" u32
    ∷ []

abbrev created_schema : EventSchema
created_schema = record {
  family = factory_family;
  name = "circle_created";
  version = 1;
  handling = projected;
  topic_count = 2;
  data_shape = tuple_of created_fields;
  first_field_is_emitter = false;
}

created_registered : get_event_schema "factory" "circle_created" ≡ some created_schema
unfolding get_event_schema
created_registered = refl

created_fits : PayloadFits (tuple_of created_fields) (array created_values) 1
unfolding check_field_kind
created_fits = (omega arith, (refl, (refl, (refl, tt))), refl)

created_parses_example : is_some (parse_circle_created_event (array created_values)) ≡ true
created_parses_example =
    created_parses (array created_values) created_schema 1 created_registered created_fits

created_matched : match_tuple created_fields (array created_values) ≡ some 1
unfolding match_tuple
created_matched = refl

match_tuple_append_example : match_tuple created_fields (array newer_values) ≡ some 1
match_tuple_append_example =
    match_tuple_append created_fields created_values newer_values (number 9 ∷ []) 1 refl
      (omega arith) created_matched

route_event_handled_example : route_event initialized ≢ some (quarantined_no_handler created_schema)
route_event_handled_example = route_event_handled initialized created_schema
