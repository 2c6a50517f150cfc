-- ===== src/Projection/Payloads.antt =====
-- indexer/src/eventSchemas.ts and indexer/src/indexer.ts: the fields of a payload that the handlers
-- read by their index, and the kinds that the registry gives them.
pub mod Rules
pub mod Handlers
use circleup.Prelude.{
  ℕ, zero, suc, ◌≤◌, ◌≡◌, refl, Bool, true, false, ◌&&◌, Option, none, some, List, [], ◌∷◌, keep,
  length, leb, get_elem?, all, arith,
}
use circleup.Events.{
  Value, FieldKind, address, symbol, u32, u64, i128, address_vec, check_field_kind,
}
use circleup.Events.Registry.{
  FieldSchema, DataShape, tuple_of, scalar_of, EventSchema, event_schemas, lookup_schema, slashed,
  get_event_schema,
}
use circleup.Prelude.{String}
use mathlib.Core.Path.{subst}
use circleup.Events.Classify.{
  since_of, items_of, ClassifiableEvent, EventClassification, is_projected, is_ignored, unknown,
  incompatible, text_or_empty, classify_event,
}
use circleup.Events.Classify.Laws.{Fits, PayloadFits, required_of, IsSound, classify_event-IsSound}
use circleup.Events.Route.{
  HandlerName, factory_circle_created, reputation_score_updated, reputation_increment,
  circle_initialized, circle_joined, circle_active, circle_contributed, circle_payout,
  circle_default, circle_round_started, circle_exceptional_settlement, circle_completed,
  circle_cancelled, circle_closed, circle_paused, circle_resumed, handler_of, handled_by,
  or_quarantine, route_classified, route_event,
}
use circleup.Events.Route.Laws.{lookup_schema-all}

-- A field that is there, of the kind.
abbrev pub HasKind : FieldKind → Option Value → Type 0
HasKind k none = ⊥
HasKind k (some v) = check_field_kind k v ≡ true

abbrev is_u32 : FieldKind → Bool
is_u32 u32 = true
is_u32 address = false
is_u32 symbol = false
is_u32 u64 = false
is_u32 i128 = false
is_u32 address_vec = false

abbrev is_i128 : FieldKind → Bool
is_i128 i128 = true
is_i128 address = false
is_i128 symbol = false
is_i128 u64 = false
is_i128 u32 = false
is_i128 address_vec = false

is_u32-check :
    (k : FieldKind) (v : Value)
    → is_u32 k ≡ true
    → check_field_kind k v ≡ true
    → HasKind u32 (some v)
is_u32-check u32 v h c = c
is_u32-check address v h c = ground (arith, h)
is_u32-check symbol v h c = ground (arith, h)
is_u32-check u64 v h c = ground (arith, h)
is_u32-check i128 v h c = ground (arith, h)
is_u32-check address_vec v h c = ground (arith, h)

is_i128-check :
    (k : FieldKind) (v : Value)
    → is_i128 k ≡ true
    → check_field_kind k v ≡ true
    → HasKind i128 (some v)
is_i128-check i128 v h c = c
is_i128-check address v h c = ground (arith, h)
is_i128-check symbol v h c = ground (arith, h)
is_i128-check u64 v h c = ground (arith, h)
is_i128-check u32 v h c = ground (arith, h)
is_i128-check address_vec v h c = ground (arith, h)

abbrev is_required : FieldSchema → Bool
is_required fs = leb (since_of fs) 1

module _ (test : FieldKind → Bool) (k : FieldKind)
    (sound : (l : FieldKind) (v : Value)
      → test l ≡ true
      → check_field_kind l v ≡ true
      → HasKind k (some v)) where
  -- The field at the index is of the kind, and it and those before it are required.
  abbrev kind_at : ℕ → List FieldSchema → Bool
  kind_at i [] = false
  kind_at zero (fs ∷ fields) = is_required fs && test fs.kind
  kind_at (suc i) (fs ∷ fields) = is_required fs && kind_at i fields

  kind_at-HasKind :
      (i : ℕ) (fields : List FieldSchema) (values : List Value)
      → kind_at i fields ≡ true
      → required_of fields ≤ length values
      → Fits fields values
      → HasKind k (get_elem? values i)
  kind_at-HasKind i [] values h r f = ground (arith, h)
  kind_at-HasKind zero (fs ∷ fields) [] h r f = absurd (ground (arith, h, r))
  kind_at-HasKind (suc i) (fs ∷ fields) [] h r f = absurd (ground (arith, h, r))
  kind_at-HasKind zero (fs ∷ fields) (v ∷ values) h r (f, fits) =
      sound fs.kind v (ground (arith, h)) f
  kind_at-HasKind (suc i) (fs ∷ fields) (v ∷ values) h r (f, fits) =
      kind_at-HasKind i fields values (ground (arith, h)) (ground (arith, h, r)) fits

abbrev u32_at : ℕ → DataShape → Bool
u32_at i (tuple_of fields) = kind_at is_u32 u32 is_u32-check i fields
u32_at i (scalar_of fs) = false

abbrev i128_at : ℕ → DataShape → Bool
i128_at i (tuple_of fields) = kind_at is_i128 i128 is_i128-check i fields
i128_at i (scalar_of fs) = false

abbrev scalar_u32 : DataShape → Bool
scalar_u32 (tuple_of fields) = false
scalar_u32 (scalar_of fs) = is_u32 fs.kind

u32_at-HasKind :
    (i : ℕ) (d : DataShape) (payload : Value) (v : ℕ)
    → u32_at i d ≡ true
    → PayloadFits d payload v
    → HasKind u32 (get_elem? (items_of payload) i)
u32_at-HasKind i (tuple_of fields) payload v h (r, f, l) =
    kind_at-HasKind is_u32 u32 is_u32-check i fields (items_of payload) h r f
u32_at-HasKind i (scalar_of fs) payload v h p = ground (arith, h)

i128_at-HasKind :
    (i : ℕ) (d : DataShape) (payload : Value) (v : ℕ)
    → i128_at i d ≡ true
    → PayloadFits d payload v
    → HasKind i128 (get_elem? (items_of payload) i)
i128_at-HasKind i (tuple_of fields) payload v h (r, f, l) =
    kind_at-HasKind is_i128 i128 is_i128-check i fields (items_of payload) h r f
i128_at-HasKind i (scalar_of fs) payload v h p = ground (arith, h)

scalar_u32-HasKind :
    (d : DataShape) (payload : Value) (v : ℕ)
    → scalar_u32 d ≡ true
    → PayloadFits d payload v
    → HasKind u32 (some payload)
scalar_u32-HasKind (tuple_of fields) payload v h p = ground (arith, h)
scalar_u32-HasKind (scalar_of fs) payload v h (c, one) = is_u32-check fs.kind payload h c

-- The fields that a handler reads as a number, at the kinds that it needs.
abbrev pub Reads : HandlerName → Value → Type 0
Reads circle_contributed p =
    HasKind u32 (get_elem? (items_of p) 2) × HasKind i128 (get_elem? (items_of p) 3)
Reads circle_payout p =
    HasKind i128 (get_elem? (items_of p) 2) × HasKind u32 (get_elem? (items_of p) 3)
Reads circle_default p =
    HasKind i128 (get_elem? (items_of p) 2) × HasKind u32 (get_elem? (items_of p) 3)
Reads circle_round_started p = HasKind u32 (get_elem? (items_of p) 1)
Reads circle_exceptional_settlement p =
    HasKind i128 (get_elem? (items_of p) 2)
    × HasKind u32 (get_elem? (items_of p) 3)
    × HasKind u32 (get_elem? (items_of p) 4)
Reads circle_closed p =
    HasKind i128 (get_elem? (items_of p) 2) × HasKind i128 (get_elem? (items_of p) 3)
Reads reputation_score_updated p = HasKind u32 (get_elem? (items_of p) 1)
Reads reputation_increment p = HasKind u32 (some p)
Reads _ p = Unit

abbrev reads_fit : HandlerName → DataShape → Bool
reads_fit circle_contributed d = u32_at 2 d && i128_at 3 d
reads_fit circle_payout d = i128_at 2 d && u32_at 3 d
reads_fit circle_default d = i128_at 2 d && u32_at 3 d
reads_fit circle_round_started d = u32_at 1 d
reads_fit circle_exceptional_settlement d = i128_at 2 d && u32_at 3 d && u32_at 4 d
reads_fit circle_closed d = i128_at 2 d && i128_at 3 d
reads_fit reputation_score_updated d = u32_at 1 d
reads_fit reputation_increment d = scalar_u32 d
reads_fit _ d = true

abbrev handler_fits : Option HandlerName → DataShape → Bool
handler_fits none d = true
handler_fits (some name) d = reads_fit name d

abbrev schema_fits : EventSchema → Bool
schema_fits s = handler_fits (handler_of s.family s.name) s.data_shape

event_schemas-fit : all schema_fits event_schemas ≡ true
unfolding handler_of
event_schemas-fit = refl

registered-fits :
    (family name : String) (s : EventSchema)
    → get_event_schema family name ≡ some s
    → schema_fits s ≡ true
unfolding get_event_schema
registered-fits family name s e =
    lookup_schema-all schema_fits (slashed family name) event_schemas s event_schemas-fit e

left : (a b : Bool) → (a && b) ≡ true → a ≡ true
left a b h = ground (arith, h)

right : (a b : Bool) → (a && b) ≡ true → b ≡ true
right a b h = ground (arith, h)

reads_fit-Reads :
    (name : HandlerName) (d : DataShape) (p : Value) (v : ℕ)
    → reads_fit name d ≡ true
    → PayloadFits d p v
    → Reads name p
reads_fit-Reads circle_contributed d p v h f =
    (u32_at-HasKind 2 d p v (left _ _ h) f, i128_at-HasKind 3 d p v (right _ _ h) f)
reads_fit-Reads circle_payout d p v h f =
    (i128_at-HasKind 2 d p v (left _ _ h) f, u32_at-HasKind 3 d p v (right _ _ h) f)
reads_fit-Reads circle_default d p v h f =
    (i128_at-HasKind 2 d p v (left _ _ h) f, u32_at-HasKind 3 d p v (right _ _ h) f)
reads_fit-Reads circle_round_started d p v h f = u32_at-HasKind 1 d p v h f
reads_fit-Reads circle_exceptional_settlement d p v h f = (
  i128_at-HasKind 2 d p v (ground (arith, h)) f,
  u32_at-HasKind 3 d p v (ground (arith, h)) f,
  u32_at-HasKind 4 d p v (ground (arith, h)) f,
)
reads_fit-Reads circle_closed d p v h f =
    (i128_at-HasKind 2 d p v (left _ _ h) f, i128_at-HasKind 3 d p v (right _ _ h) f)
reads_fit-Reads reputation_score_updated d p v h f = u32_at-HasKind 1 d p v h f
reads_fit-Reads reputation_increment d p v h f = scalar_u32-HasKind d p v h f
reads_fit-Reads factory_circle_created d p v h f = tt
reads_fit-Reads circle_initialized d p v h f = tt
reads_fit-Reads circle_joined d p v h f = tt
reads_fit-Reads circle_active d p v h f = tt
reads_fit-Reads circle_completed d p v h f = tt
reads_fit-Reads circle_cancelled d p v h f = tt
reads_fit-Reads circle_paused d p v h f = tt
reads_fit-Reads circle_resumed d p v h f = tt

or_quarantine-handler :
    (s : EventSchema) (o : Option HandlerName) (name : HandlerName)
    → some (or_quarantine s o) ≡ some (handled_by name)
    → o ≡ some name
or_quarantine-handler s none name e = ground (arith, e)
or_quarantine-handler s (some h) name e = ground (arith, e)

route_classified-Reads :
    (ev : ClassifiableEvent) (c : EventClassification) (name : HandlerName)
    → IsSound ev c
    → route_classified c ≡ some (handled_by name)
    → Reads name ev.payload
unfolding route_classified
route_classified-Reads ev (is_projected s v) name ((found, _, _, fits, _), _) e =
    let handler = or_quarantine-handler s (handler_of s.family s.name) name e in
    reads_fit-Reads name s.data_shape ev.payload v
      (subst (λ o. handler_fits o s.data_shape ≡ true) handler
        (registered-fits (text_or_empty (get_elem? ev.topics 0))
          (text_or_empty (get_elem? ev.topics 1)) s found))
      fits
route_classified-Reads ev (is_ignored s v) name h e = ground (arith, e)
route_classified-Reads ev (unknown r) name h e = ground (arith, e)
route_classified-Reads ev (incompatible s r) name h e = ground (arith, e)

pub route_event-Reads :
    (ev : ClassifiableEvent) (name : HandlerName)
    → route_event ev ≡ some (handled_by name)
    → Reads name ev.payload
unfolding route_event
route_event-Reads ev name e =
    route_classified-Reads ev (classify_event ev) name (classify_event-IsSound ev) e
