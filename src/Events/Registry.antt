-- ===== src/Events/Registry.antt =====
-- indexer/src/eventSchemas.ts: the registry of the events that the contracts emit.
use Prim.Native.String
use circleup.Prelude.{ℕ, String, Bool, true, false, Option, none, some, List, [], ◌∷◌, str_eq}
use circleup.Events.{FieldKind, address, symbol, u32, u64, i128, address_vec}

pub record FieldSchema : Type 0 where
  pub name : String
  pub kind : FieldKind
  pub since : Option ℕ

abbrev pub field_of : String → FieldKind → FieldSchema
field_of name kind = record { name = name; kind = kind; since = none }

pub data EventFamily : Type 0 where
  factory_family circle_family reputation_family : EventFamily

abbrev pub family_text : EventFamily → String
family_text factory_family = "factory"
family_text circle_family = "circle"
family_text reputation_family = "reputation"

pub data Handling : Type 0 where
  projected ignored : Handling

pub data DataShape : Type 0 where
  tuple_of : List FieldSchema → DataShape
  scalar_of : FieldSchema → DataShape

pub record EventSchema : Type 0 where
  pub family : EventFamily
  pub name : String
  pub version : ℕ
  pub handling : Handling
  pub topic_count : ℕ
  pub data_shape : DataShape
  pub first_field_is_emitter : Bool

abbrev pub event_schemas : List EventSchema
event_schemas =
    record {
      family = factory_family;
      name = "circle_created";
      version = 1;
      handling = projected;
      topic_count = 2;
      data_shape = tuple_of (
          field_of "circle_address" address
          ∷ field_of "creator" address
          ∷ field_of "circle_index" u32
          ∷ []);
      first_field_is_emitter = false;
    }
    ∷ record {
      family = circle_family;
      name = "initialized";
      version = 2;
      handling = projected;
      topic_count = 2;
      data_shape = tuple_of (
          field_of "circle_address" address
          ∷ field_of "member_count" u32
          ∷ field_of "round_amount" i128
          ∷ record { name = "members"; kind = address_vec; since = some 2 }
          ∷ []);
      first_field_is_emitter = true;
    }
    ∷ record {
      family = circle_family;
      name = "joined";
      version = 1;
      handling = projected;
      topic_count = 2;
      data_shape = tuple_of (
          field_of "circle_address" address
          ∷ field_of "member" address
          ∷ field_of "join_order" u32
          ∷ field_of "collateral" i128
          ∷ []);
      first_field_is_emitter = true;
    }
    ∷ record {
      family = circle_family;
      name = "active";
      version = 1;
      handling = projected;
      topic_count = 2;
      data_shape =
          tuple_of (field_of "circle_address" address ∷ field_of "deadline_ledger" u64 ∷ []);
      first_field_is_emitter = true;
    }
    ∷ record {
      family = circle_family;
      name = "contributed";
      version = 1;
      handling = projected;
      topic_count = 2;
      data_shape = tuple_of (
          field_of "circle_address" address
          ∷ field_of "member" address
          ∷ field_of "round_index" u32
          ∷ field_of "amount" i128
          ∷ []);
      first_field_is_emitter = true;
    }
    ∷ record {
      family = circle_family;
      name = "payout";
      version = 1;
      handling = projected;
      topic_count = 2;
      data_shape = tuple_of (
          field_of "circle_address" address
          ∷ field_of "recipient" address
          ∷ field_of "amount" i128
          ∷ field_of "round_index" u32
          ∷ []);
      first_field_is_emitter = true;
    }
    ∷ record {
      family = circle_family;
      name = "default";
      version = 1;
      handling = projected;
      topic_count = 2;
      data_shape = tuple_of (
          field_of "circle_address" address
          ∷ field_of "member" address
          ∷ field_of "penalty" i128
          ∷ field_of "round_index" u32
          ∷ field_of "new_collateral" i128
          ∷ []);
      first_field_is_emitter = true;
    }
    ∷ record {
      family = circle_family;
      name = "round_started";
      version = 1;
      handling = projected;
      topic_count = 2;
      data_shape = tuple_of (
          field_of "circle_address" address
          ∷ field_of "round_index" u32
          ∷ field_of "recipient" address
          ∷ field_of "deadline_ledger" u64
          ∷ []);
      first_field_is_emitter = true;
    }
    ∷ record {
      family = circle_family;
      name = "exceptional_settlement";
      version = 1;
      handling = projected;
      topic_count = 2;
      data_shape = tuple_of (
          field_of "circle_address" address
          ∷ field_of "recipient" address
          ∷ field_of "pot" i128
          ∷ field_of "round_index" u32
          ∷ field_of "defaulted_count" u32
          ∷ []);
      first_field_is_emitter = true;
    }
    ∷ record {
      family = circle_family;
      name = "completed";
      version = 1;
      handling = projected;
      topic_count = 2;
      data_shape = tuple_of (field_of "circle_address" address ∷ field_of "member_count" u32 ∷ []);
      first_field_is_emitter = true;
    }
    ∷ record {
      family = circle_family;
      name = "cancelled";
      version = 1;
      handling = projected;
      topic_count = 2;
      data_shape = tuple_of (
          field_of "circle_address" address
          ∷ field_of "caller" address
          ∷ field_of "ledger" u32
          ∷ []);
      first_field_is_emitter = true;
    }
    ∷ record {
      family = circle_family;
      name = "collateral_released";
      version = 1;
      handling = ignored;
      topic_count = 2;
      data_shape = tuple_of (
          field_of "circle_address" address
          ∷ field_of "member" address
          ∷ field_of "collateral" i128
          ∷ []);
      first_field_is_emitter = true;
    }
    ∷ record {
      family = circle_family;
      name = "closed";
      version = 1;
      handling = projected;
      topic_count = 2;
      data_shape = tuple_of (
          field_of "circle_address" address
          ∷ field_of "closer" address
          ∷ field_of "total_released" i128
          ∷ field_of "total_expected_collateral" i128
          ∷ field_of "reason" symbol
          ∷ []);
      first_field_is_emitter = true;
    }
    ∷ record {
      family = circle_family;
      name = "paused";
      version = 1;
      handling = projected;
      topic_count = 2;
      data_shape = tuple_of (
          field_of "circle_address" address
          ∷ field_of "admin" address
          ∷ field_of "ledger" u32
          ∷ []);
      first_field_is_emitter = true;
    }
    ∷ record {
      family = circle_family;
      name = "resumed";
      version = 1;
      handling = projected;
      topic_count = 2;
      data_shape = tuple_of (
          field_of "circle_address" address
          ∷ field_of "admin" address
          ∷ field_of "ledger" u32
          ∷ []);
      first_field_is_emitter = true;
    }
    ∷ record {
      family = reputation_family;
      name = "score_updated";
      version = 1;
      handling = projected;
      topic_count = 2;
      data_shape = tuple_of (field_of "member" address ∷ field_of "new_total_score" u32 ∷ []);
      first_field_is_emitter = false;
    }
    ∷ record {
      family = reputation_family;
      name = "increment";
      version = 1;
      handling = projected;
      topic_count = 3;
      data_shape = scalar_of (field_of "score" u32);
      first_field_is_emitter = false;
    }
    ∷ record {
      family = reputation_family;
      name = "caller_added";
      version = 1;
      handling = ignored;
      topic_count = 2;
      data_shape = scalar_of (field_of "circle" address);
      first_field_is_emitter = false;
    }
    ∷ record {
      family = reputation_family;
      name = "caller_removed";
      version = 1;
      handling = ignored;
      topic_count = 2;
      data_shape = scalar_of (field_of "circle" address);
      first_field_is_emitter = false;
    }
    ∷ []

abbrev pub slashed : String → String → String
slashed family name = String.◌++◌ family (String.◌++◌ "/" name)

-- A lookup in the Map of `family/name`: of two entries with one key the later stays.
abbrev pub or_earlier : Option EventSchema → Bool → EventSchema → Option EventSchema
or_earlier (some later) here s = some later
or_earlier none true s = some s
or_earlier none false s = none

unfoldable pub lookup_schema : String → List EventSchema → Option EventSchema
lookup_schema key [] = none
lookup_schema key (s ∷ schemas) =
    or_earlier (lookup_schema key schemas) (str_eq (slashed (family_text s.family) s.name) key) s

unfoldable pub get_event_schema : String → String → Option EventSchema
unfolding lookup_schema
get_event_schema family name = lookup_schema (slashed family name) event_schemas
