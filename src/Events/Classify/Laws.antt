-- ===== src/Events/Classify/Laws.antt =====
-- indexer/src/eventSchemas.ts, `classifyEvent`: what a classification says of the event.
use circleup.Prelude.{
  ℕ, max, ◌≤◌, ◌≡◌, ◌≢◌, ◌⊎◌, String, eq_iff, sym, refl, ap, length-append, inl, inr, ◌↔◌, Bool,
  true, false, not, ◌&&◌, ◌||◌, Option, none, some, List, [], ◌∷◌, ◌++◌, keep, length, ltb, leb,
  ◌==◌, if◌then◌else◌, str_eq, get_elem?, Bool-cases, arith,
}
use circleup.Events.{Value, Values, text, address, array, list_of, check_field_kind}
use mathlib.Core.Path.{subst}
use circleup.Events.Registry.{
  FieldSchema, Handling, projected, ignored, DataShape, tuple_of, scalar_of, EventSchema,
  get_event_schema,
}
use circleup.Events.Classify.{
  EventClassification, is_projected, is_ignored, unknown, incompatible, since_of, match_fields,
  match_tuple, ClassifiableEvent, text_or_empty, emitter_differs, settle_handling, after_match,
  classify_data, bad_topic, classify_with, classify_event, wrong_emitter, bad_data, too_few_topics,
  topic_not_address, missing_topics, unknown_family, known_family, items_of, is_text,
}

-- The fields that the value has are of their kinds, and the version is the latest of theirs.
abbrev pub Fits : List FieldSchema → List Value → Type 0
Fits [] values = Unit
Fits (fs ∷ fields) [] = Unit
Fits (fs ∷ fields) (value ∷ values) = (check_field_kind fs.kind value ≡ true) × Fits fields values

abbrev pub latest_of : List FieldSchema → List Value → ℕ → ℕ
latest_of [] values v = v
latest_of (fs ∷ fields) [] v = v
latest_of (fs ∷ fields) (value ∷ values) v = latest_of fields values (max v (since_of fs))

match_fields_iff :
    (fields : List FieldSchema) (values : List Value) (v w : ℕ)
    → (match_fields fields values v ≡ some w)
      ↔ (Fits fields values × (w ≡ latest_of fields values v))
unfolding match_fields
match_fields_iff [] values v w = ground arith
match_fields_iff (fs ∷ fields) [] v w = ground arith
match_fields_iff (fs ∷ fields) (value ∷ values) v w =
    ground (arith, match_fields_iff fields values (max v (since_of fs)) w)

abbrev pub required_of : List FieldSchema → ℕ
required_of fields = length (keep (λ fs. leb (since_of fs) 1) fields)

-- What a payload of a shape at a version is.
abbrev pub PayloadFits : DataShape → Value → ℕ → Type 0
PayloadFits (scalar_of fs) value v = (check_field_kind fs.kind value ≡ true) × (v ≡ 1)
PayloadFits (tuple_of fields) value v =
    (required_of fields ≤ length (items_of value))
    × Fits fields (items_of value)
    × (v ≡ latest_of fields (items_of value) 1)

match_tuple-PayloadFits :
    (fields : List FieldSchema) (value : Value) (v : ℕ)
    → match_tuple fields value ≡ some v
    → PayloadFits (tuple_of fields) value v
unfolding match_tuple
match_tuple-PayloadFits fields (array vs) v h =
    elim (Bool-cases (ltb (length (list_of vs)) (required_of fields))) [
      | inl few ↦ absurd (ground (arith, few, h))
      | inr enough ↦
          let (fits, latest) =
            (match_fields_iff fields (list_of vs) 1 v).0 (ground (arith, enough, h)) in
          (ground (arith, enough), fits, latest)
    ]
match_tuple-PayloadFits fields value v h = ground (arith, h)

match_fields_append :
    (fields : List FieldSchema) (values extra : List Value) (v : ℕ)
    → length fields ≤ length values
    → match_fields fields (values ++ extra) v ≡ match_fields fields values v
unfolding match_fields
match_fields_append [] values extra v h = refl
match_fields_append (fs ∷ fields) [] extra v h = absurd (omega (arith, h))
match_fields_append (fs ∷ fields) (value ∷ values) extra v h =
    ap (λ rest. if check_field_kind fs.kind value then rest else none)
      (match_fields_append fields values extra (max v (since_of fs)) (omega (arith, h)))

-- A payload with more fields than the registry knows matches the version that its known fields do.
pub match_tuple_append :
    (fields : List FieldSchema) (vs ws : Values) (extra : List Value) (v : ℕ)
    → list_of ws ≡ list_of vs ++ extra
    → length fields ≤ length (list_of vs)
    → match_tuple fields (array vs) ≡ some v
    → match_tuple fields (array ws) ≡ some v
unfolding match_tuple
match_tuple_append fields vs ws extra v e h k =
    elim (Bool-cases (ltb (length (list_of vs)) (required_of fields))) [
      | inl few ↦ absurd (ground (arith, few, k))
      | inr enough ↦
          let same = match_fields_append fields (list_of vs) extra 1 h in
          let longer = length-append {0} (list_of vs) extra in
          rw e (ground (arith, enough, same, longer, k))
    ]

module _ (ev : ClassifiableEvent) where
  -- Where the schema has three topics, the third is an address.
  abbrev pub TopicFits : EventSchema → Type 0
  TopicFits s =
      (s.topic_count ≢ 3)
      ⊎ ((v : Value) × (get_elem? ev.topics 2 ≡ some v) × (check_field_kind address v ≡ true))

  -- The first field of a tuple is the contract that emitted the event, where the schema says so and
  -- the contract is known.
  abbrev pub EmitterFits : DataShape → EventSchema → Option String → Type 0
  EmitterFits (scalar_of fs) s id = Unit
  EmitterFits (tuple_of fields) s none = Unit
  EmitterFits (tuple_of fields) s (some id) =
      (s.first_field_is_emitter ≡ false)
      ⊎ ((id ≡ "") ⊎ (get_elem? (items_of ev.payload) 0 ≡ some (text id)))

  -- An accepted event: its schema is the one registered for its family and name, it has the topics of
  -- the schema and a payload of its shape, and its first field is its emitter where it must be.
  abbrev pub Accepted : EventSchema → ℕ → Type 0
  Accepted s v =
      (get_event_schema (text_or_empty (get_elem? ev.topics 0))
          (text_or_empty (get_elem? ev.topics 1))
        ≡ some s)
      × (s.topic_count ≤ length ev.topics)
      × TopicFits s
      × PayloadFits s.data_shape ev.payload v
      × EmitterFits s.data_shape s ev.contract_id

  abbrev pub IsSound : EventClassification → Type 0
  IsSound (is_projected s v) = Accepted s v × (s.handling ≡ projected)
  IsSound (is_ignored s v) = Accepted s v × (s.handling ≡ ignored)
  IsSound (unknown reason) = Unit
  IsSound (incompatible s reason) = Unit

  if-IsSound :
      (b : Bool) (x y : EventClassification)
      → (b ≡ true → IsSound x)
      → (b ≡ false → IsSound y)
      → IsSound (if b then x else y)
  if-IsSound true x y h k = h refl
  if-IsSound false x y h k = k refl

  settle_handling-IsSound :
      (s : EventSchema) (v : ℕ) (h : Handling)
      → s.handling ≡ h
      → Accepted s v
      → IsSound (settle_handling s v h)
  settle_handling-IsSound s v projected e a = (a, e)
  settle_handling-IsSound s v ignored e a = (a, e)

  bad_topic-TopicFits :
      (s : EventSchema) (o : Option Value)
      → get_elem? ev.topics 2 ≡ o
      → (s.topic_count == 3 && bad_topic o) ≡ false
      → TopicFits s
  bad_topic-TopicFits s none e h = inl (ground (arith, h))
  bad_topic-TopicFits s (some v) e h = elim (Bool-cases (s.topic_count == 3)) [
    | inl three ↦ inr (v, e, ground (arith, h, three))
    | inr other ↦ inl (ground (arith, other))
  ]

  is_text_iff : (id : String) (o : Option Value) → is_text id o ≡ true → o ≡ some (text id)
  is_text_iff id none h = ground (arith, h)
  is_text_iff id (some (text t)) h = ap (λ x. some (text x)) ((eq_iff t id).0 h)
  is_text_iff id (some v) h = ground (arith, h)

  emitter_differs-EmitterFits :
      (s : EventSchema) (fields : List FieldSchema) (o : Option String)
      → emitter_differs s ev o ≡ false
      → EmitterFits (tuple_of fields) s o
  unfolding emitter_differs
  emitter_differs-EmitterFits s fields none h = tt
  emitter_differs-EmitterFits s fields (some id) h = elim (Bool-cases s.first_field_is_emitter) [
    | inr free ↦ inl free
    | inl must ↦ elim (Bool-cases (str_eq id "")) [
      | inl empty ↦ inr (inl ((eq_iff id "").0 empty))
      | inr named ↦ inr (inr (is_text_iff id _ (ground (arith, h, must, named))))
    ]
  ]

  module _ (s : EventSchema)
      (found : get_event_schema
          (text_or_empty (get_elem? ev.topics 0))
          (text_or_empty (get_elem? ev.topics 1))
        ≡ some s)
      (enough : s.topic_count ≤ length ev.topics) (topic : TopicFits s) where
    after_match-IsSound :
        (fields : List FieldSchema) (matched : Option ℕ)
        → s.data_shape ≡ tuple_of fields
        → ((v : ℕ) → matched ≡ some v → PayloadFits s.data_shape ev.payload v)
        → IsSound (after_match s ev matched)
    unfolding after_match
    after_match-IsSound fields none e fits = tt
    after_match-IsSound fields (some v) e fits =
        if-IsSound (emitter_differs s ev ev.contract_id) (incompatible s wrong_emitter)
          (settle_handling s v s.handling) (λ _. tt)
          (λ same. settle_handling-IsSound s v s.handling refl (
            found,
            enough,
            topic,
            fits v refl,
            subst (λ d. EmitterFits d s ev.contract_id) (sym e)
                (emitter_differs-EmitterFits s fields ev.contract_id same),
          ))

    classify_data-IsSound :
        (shape : DataShape) → s.data_shape ≡ shape → IsSound (classify_data s ev shape)
    unfolding classify_data
    classify_data-IsSound (scalar_of fs) e =
        if-IsSound (check_field_kind fs.kind ev.payload) (settle_handling s 1 s.handling)
          (incompatible s bad_data)
          (λ ok.
            settle_handling-IsSound s 1 s.handling refl
              (found, enough, topic, rw e (ok, refl), rw e tt))
          (λ _. tt)
    classify_data-IsSound (tuple_of fields) e =
        after_match-IsSound fields (match_tuple fields ev.payload) e
          (λ v m. rw e (match_tuple-PayloadFits fields ev.payload v m))

  classify_with-IsSound :
      (found : Option EventSchema)
      → get_event_schema
          (text_or_empty (get_elem? ev.topics 0))
          (text_or_empty (get_elem? ev.topics 1))
        ≡ found
      → IsSound (classify_with ev found)
  unfolding classify_with
  classify_with-IsSound none e = tt
  classify_with-IsSound (some s) e =
      if-IsSound (ltb (length ev.topics) s.topic_count) (incompatible s too_few_topics)
        (if s.topic_count == 3 && bad_topic (get_elem? ev.topics 2)
          then incompatible s topic_not_address
          else classify_data s ev s.data_shape)
        (λ _. tt)
        (λ enough.
          if-IsSound (s.topic_count == 3 && bad_topic (get_elem? ev.topics 2))
            (incompatible s topic_not_address) (classify_data s ev s.data_shape) (λ _. tt)
            (λ good.
              classify_data-IsSound s e (ground (arith, enough))
                (bad_topic-TopicFits s (get_elem? ev.topics 2) refl good) s.data_shape refl))

  -- An event is classified as projected or as ignored only if the registry has a schema for its family
  -- and name with that handling, it has the topics of the schema, the third an address where there
  -- are three, and its payload is of the schema's shape: the required fields are there, each known
  -- field is of its kind, and the version is the latest that introduced one of them; and the first
  -- field of a tuple is the emitting contract, where the schema asks for it and the contract is known.
  pub classify_event-IsSound : IsSound (classify_event ev)
  unfolding classify_event
  classify_event-IsSound =
      let family = text_or_empty (get_elem? ev.topics 0) in
      let name = text_or_empty (get_elem? ev.topics 1) in
      if-IsSound (str_eq family "" || str_eq name "") (unknown missing_topics)
        (if not (known_family family)
          then unknown unknown_family
          else classify_with ev (get_event_schema family name))
        (λ _. tt)
        (λ _.
          if-IsSound (not (known_family family)) (unknown unknown_family)
            (classify_with ev (get_event_schema family name)) (λ _. tt)
            (λ _. classify_with-IsSound (get_event_schema family name) refl))
