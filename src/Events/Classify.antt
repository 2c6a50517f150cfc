-- ===== src/Events/Classify.antt =====
-- indexer/src/eventSchemas.ts, `matchTuple` and `classifyEvent`.
pub mod Laws
use circleup.Prelude.{
  ℕ, suc, max, String, Bool, true, false, not, ◌&&◌, ◌||◌, Option, none, some, List, [], ◌∷◌, keep,
  length, any, ltb, leb, ◌==◌, if◌then◌else◌, str_eq, or_else, get_elem?,
}
use circleup.Events.{Value, text, array, list_of, address, check_field_kind}
use circleup.Events.Registry.{
  FieldSchema, Handling, projected, ignored, DataShape, tuple_of, scalar_of, EventSchema,
  get_event_schema,
}

pub data Reason : Type 0 where
  missing_topics unknown_family no_schema too_few_topics topic_not_address : Reason
  bad_data wrong_emitter : Reason

pub data EventClassification : Type 0 where
  is_projected is_ignored : EventSchema → ℕ → EventClassification
  unknown : Reason → EventClassification
  incompatible : EventSchema → Reason → EventClassification

abbrev pub since_of : FieldSchema → ℕ
since_of fs = or_else fs.since 1

-- The loop of `matchTuple`, from version `v` on: over the fields that the value has.
pub match_fields : List FieldSchema → List Value → ℕ → Option ℕ
unfolding check_field_kind
match_fields [] values v = some v
match_fields (fs ∷ fields) [] v = some v
match_fields (fs ∷ fields) (value ∷ values) v =
    let rest = match_fields fields values (max v (since_of fs)) in
    if check_field_kind fs.kind value then rest else none

unfoldable pub match_tuple : List FieldSchema → Value → Option ℕ
unfolding match_fields
match_tuple fields (array vs) =
    let required = length (keep (λ fs. leb (since_of fs) 1) fields) in
    if ltb (length (list_of vs)) required then none else match_fields fields (list_of vs) 1
match_tuple fields _ = none

pub record ClassifiableEvent : Type 0 where
  pub topics : List Value
  pub payload : Value
  pub contract_id : Option String

-- `typeof topic === "string" ? topic : ""`
abbrev pub text_or_empty : Option Value → String
text_or_empty (some (text s)) = s
text_or_empty _ = ""

abbrev pub known_family : String → Bool
known_family s = str_eq s "factory" || str_eq s "circle" || str_eq s "reputation"

abbrev pub is_text : String → Option Value → Bool
is_text s (some (text t)) = str_eq t s
is_text s _ = false

-- The items of a data payload that is an array.
abbrev pub items_of : Value → List Value
items_of (array vs) = list_of vs
items_of _ = []

-- `schema.firstFieldIsEmitter && event.contractId` and the comparison with the first field.
pub emitter_differs : EventSchema → ClassifiableEvent → Option String → Bool
emitter_differs schema ev none = false
emitter_differs schema ev (some id) =
    schema.first_field_is_emitter
    && not (str_eq id "")
    && not (is_text id (get_elem? (items_of ev.payload) 0))

abbrev pub settle_handling : EventSchema → ℕ → Handling → EventClassification
settle_handling schema v projected = is_projected schema v
settle_handling schema v ignored = is_ignored schema v

pub after_match : EventSchema → ClassifiableEvent → Option ℕ → EventClassification
unfolding emitter_differs
after_match schema ev none = incompatible schema bad_data
after_match schema ev (some v) =
    if emitter_differs schema ev ev.contract_id
    then incompatible schema wrong_emitter
    else settle_handling schema v schema.handling

pub classify_data : EventSchema → ClassifiableEvent → DataShape → EventClassification
unfolding after_match match_tuple check_field_kind
classify_data schema ev (scalar_of fs) =
    if check_field_kind fs.kind ev.payload
    then settle_handling schema 1 schema.handling
    else incompatible schema bad_data
classify_data schema ev (tuple_of fields) = after_match schema ev (match_tuple fields ev.payload)

-- A third topic that is no address.
abbrev pub bad_topic : Option Value → Bool
bad_topic none = true
bad_topic (some v) = not (check_field_kind address v)

pub classify_with : ClassifiableEvent → Option EventSchema → EventClassification
unfolding classify_data check_field_kind
classify_with ev none = unknown no_schema
classify_with ev (some schema) =
    if ltb (length ev.topics) schema.topic_count
    then incompatible schema too_few_topics
    else if schema.topic_count == 3 && bad_topic (get_elem? ev.topics 2)
    then incompatible schema topic_not_address
    else classify_data schema ev schema.data_shape

unfoldable pub classify_event : ClassifiableEvent → EventClassification
unfolding classify_with get_event_schema
classify_event ev =
    let family = text_or_empty (get_elem? ev.topics 0) in
    let name = text_or_empty (get_elem? ev.topics 1) in
    if str_eq family "" || str_eq name ""
    then unknown missing_topics
    else if not (known_family family)
    then unknown unknown_family
    else classify_with ev (get_event_schema family name)
