-- ===== src/Events/Parsers/Laws.antt =====
-- indexer/src/eventParsers.ts: what a parsed payload is, and that the registry's shapes are parsed.
use circleup.Prelude.{
  ℕ, ◌≤◌, ◌≡◌, ◌≢◌, inl, inr, refl, String, true, Option, none, some, List, [], ◌∷◌, length, ◌==◌,
  str_eq, ◌>>=◌, arith, Bool-cases, is_some, eq_iff,
}
use mathlib.Core.Path.{subst}
use circleup.Events.{
  Value, text, number, bigint, array, list_of, is_filled_text, check_field_kind, u32, address,
}
use circleup.Events.Registry.{FieldSchema, field_of, get_event_schema, EventSchema, tuple_of}
use circleup.Events.Classify.Laws.{PayloadFits, Fits}
use circleup.Events.Parsers.{
  Initialized, parse_initialized_event, parse_initialized_fields, parse_members, check_members,
  no_duplicates, parse_circle_created_event, parse_circle_created_fields, filled_text, number_in,
  amount_from, filled_texts,
}

-- The members, where they are given, are as many as the count says and distinct.
abbrev pub MembersFit : ℕ → Option (List String) → Type 0
MembersFit count none = Unit
MembersFit count (some ss) = (length ss ≡ count) × (no_duplicates ss ≡ true)

-- A predicate of a result, where there is one.
abbrev OnSome : {A : Type 0} → (A → Type 0) → Option A → Type 0
OnSome P none = Unit
OnSome P (some a) = P a

bind-OnSome :
    {A B : Type 0} (P : B → Type 0) (o : Option A) (f : A → Option B)
    → ((a : A) → o ≡ some a → OnSome P (f a))
    → OnSome P (o >>= f)
bind-OnSome P none f h = tt
bind-OnSome P (some a) f h = h a refl

filled_text-filled : (v : Value) (s : String) → filled_text v ≡ some s → s ≢ ""
filled_text-filled (text t) s e = elim (Bool-cases (str_eq t "")) [
  | inl empty ↦ absurd (ground (arith, empty, e))
  | inr filled ↦ ground (arith, filled, e, eq_iff t "")
]
filled_text-filled v s e = ground (arith, e)

number_in-bounds :
    (low high : ℕ) (v : Value) (n : ℕ)
    → number_in low (some high) v ≡ some n
    → (low ≤ n) × (n ≤ high)
number_in-bounds low high (number k) n e = ground (arith, e)
number_in-bounds low high v n e = ground (arith, e)

amount_from-bound : (low : ℕ) (v : Value) (n : ℕ) → amount_from low v ≡ some n → low ≤ n
amount_from-bound low (bigint k) n e = ground (arith, e)
amount_from-bound low (number k) n e = ground (arith, e)
amount_from-bound low v n e = ground (arith, e)

check_members-MembersFit :
    (count : ℕ) (ss : List String) → OnSome (MembersFit count) (check_members count ss)
check_members-MembersFit count ss = elim (Bool-cases (length ss == count)) [
  | inr other ↦ rw other tt
  | inl same ↦ elim (Bool-cases (no_duplicates ss)) [
    | inr twice ↦ rw (same, twice) tt
    | inl once ↦ rw (same, once) (ground (arith, same), once)
  ]
]

parse_members-MembersFit :
    (count : ℕ) (rest : List Value) → OnSome (MembersFit count) (parse_members count rest)
unfolding parse_members
parse_members-MembersFit count [] = tt
parse_members-MembersFit count (array vs ∷ rest) =
    bind-OnSome (MembersFit count) (filled_texts (list_of vs)) (check_members count)
      (λ ss e. check_members-MembersFit count ss)
parse_members-MembersFit count (v ∷ rest) = tt

abbrev pub IsInitialized : Initialized → Type 0
IsInitialized p =
    (p.circle_address ≢ "")
    × (2 ≤ p.member_count)
    × (p.member_count ≤ 256)
    × (1 ≤ p.round_amount)
    × MembersFit p.member_count p.members

parse_initialized_fields-IsInitialized :
    (vs : List Value) → OnSome IsInitialized (parse_initialized_fields vs)
unfolding parse_initialized_fields
parse_initialized_fields-IsInitialized (a ∷ c ∷ r ∷ rest) =
    bind-OnSome IsInitialized (filled_text a) _ (λ address ea.
      bind-OnSome IsInitialized (number_in 2 (some 256) c) _ (λ count ec.
        bind-OnSome IsInitialized (amount_from 1 r) _ (λ amount er.
          bind-OnSome IsInitialized (parse_members count rest) _ (λ members em. (
            filled_text-filled a address ea,
            (number_in-bounds 2 256 c count ec).0,
            (number_in-bounds 2 256 c count ec).1,
            amount_from-bound 1 r amount er,
            subst (OnSome (MembersFit count)) em (parse_members-MembersFit count rest),
          )))))
parse_initialized_fields-IsInitialized vs = tt

-- A circle that was parsed has an address, 2 to 256 members and a positive amount, and the members, where
-- the payload names them, are as many as it says and distinct.
pub parse_initialized_sound :
    (value : Value) (p : Initialized) → parse_initialized_event value ≡ some p → IsInitialized p
unfolding parse_initialized_event
parse_initialized_sound (array vs) p e =
    subst (OnSome IsInitialized) e (parse_initialized_fields-IsInitialized (list_of vs))
parse_initialized_sound value p e = ground (arith, e)

filled_text-some : (v : Value) → is_filled_text v ≡ true → (s : String) × (filled_text v ≡ some s)
filled_text-some (text t) h = (t, ground (arith, h))
filled_text-some v h = absurd (ground (arith, h))

number_in-some :
    (v : Value) → check_field_kind u32 v ≡ true → (n : ℕ) × (number_in 0 none v ≡ some n)
unfolding check_field_kind
number_in-some (number n) h = (n, ground arith)
number_in-some v h = absurd (ground (arith, h))

-- The fields of `factory/circle_created`.
abbrev created_fields : List FieldSchema
created_fields =
    field_of "circle_address" address
    ∷ field_of "creator" address
    ∷ field_of "circle_index" u32
    ∷ []

created_fields-parse :
    (vs : List Value)
    → 3 ≤ length vs
    → Fits created_fields vs
    → is_some (parse_circle_created_fields vs) ≡ true
unfolding parse_circle_created_fields check_field_kind
created_fields-parse [] h k = absurd (omega (arith, h))
created_fields-parse (a ∷ []) h k = absurd (omega (arith, h))
created_fields-parse (a ∷ c ∷ []) h k = absurd (omega (arith, h))
created_fields-parse (a ∷ c ∷ i ∷ rest) h (ka, (kc, (ki, _))) =
    let (s, es) = filled_text-some a ka in
    let (t, et) = filled_text-some c kc in let (n, en) = number_in-some i ki in rw (es, et, en) refl

created_payload-parses :
    (value : Value) (v : ℕ)
    → PayloadFits (tuple_of created_fields) value v
    → is_some (parse_circle_created_event value) ≡ true
unfolding parse_circle_created_event
created_payload-parses (array vs) v (enough, fits, _) =
    created_fields-parse (list_of vs) enough fits
created_payload-parses value v (enough, _, _) = absurd (omega (arith, enough))

created_schema-shape :
    (s : EventSchema)
    → get_event_schema "factory" "circle_created" ≡ some s
    → s.data_shape ≡ tuple_of created_fields
unfolding get_event_schema
created_schema-shape s e = subst (OnSome (λ t. t.data_shape ≡ tuple_of created_fields)) e refl

-- A `factory/circle_created` payload that the registry's shape admits is parsed.
pub created_parses :
    (value : Value) (s : EventSchema) (v : ℕ)
    → get_event_schema "factory" "circle_created" ≡ some s
    → PayloadFits s.data_shape value v
    → is_some (parse_circle_created_event value) ≡ true
created_parses value s v e fits =
    created_payload-parses value v
      (subst (λ shape. PayloadFits shape value v) (created_schema-shape s e) fits)
