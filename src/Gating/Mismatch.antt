-- ===== src/Gating/Mismatch.antt =====
-- sdk/src/gating.ts, `detectStateMismatches`: the fields of a caller's expectation that a fresh
-- read contradicts. `undefined` and `null` are `none`.
use circleup.Prelude.{
  ℕ, ◌≡◌, ◌≢◌, ◌⊎◌, ◌↔◌, Bool, true, false, Option, none, some, List, [], ◌∷◌, ◌++◌, arith, refl,
  if◌then◌else◌, ◌==◌,
}
use circleup.Gating.{CircleStatus, pending, active, completed, cancelled}

pub record ExpectedState : Type 0 where
  pub status : Option CircleStatus
  pub round_index : Option ℕ
  pub contributions_received : Option ℕ
  pub has_contributed : Option Bool
  pub paid_out : Option Bool

pub record ActualState : Type 0 where
  pub status : CircleStatus
  pub round_index : Option ℕ
  pub contributions_received : Option ℕ
  pub has_contributed : Option Bool
  pub paid_out : Option Bool

pub data StateField : Type 0 where
  status_field round_index_field contributions_received_field : StateField
  has_contributed_field paid_out_field : StateField

-- `string | number | boolean`
pub data FieldValue : Type 0 where
  status_value : CircleStatus → FieldValue
  number_value : ℕ → FieldValue
  boolean_value : Bool → FieldValue

pub record StateMismatch : Type 0 where
  pub field : StateField
  pub expected : FieldValue
  pub actual : FieldValue

abbrev pub same_status : CircleStatus → CircleStatus → Bool
same_status pending pending = true
same_status active active = true
same_status completed completed = true
same_status cancelled cancelled = true
same_status _ _ = false

abbrev pub same_flag : Bool → Bool → Bool
same_flag true true = true
same_flag false false = true
same_flag _ _ = false

-- One `if (expected.f !== undefined && actual.f !== null && actual.f !== expected.f) push(...)`.
unfoldable pub compare_field :
    {A : Type 0}
    → StateField
    → (A → FieldValue)
    → (A → A → Bool)
    → Option A
    → Option A
    → List StateMismatch
compare_field field value same none actual = []
compare_field field value same (some e) none = []
compare_field field value same (some e) (some a) =
    if same a e then [] else record { field = field; expected = value e; actual = value a } ∷ []

-- The five tests of `detectStateMismatches`, in the source's order.
abbrev field_mismatch : StateField → ExpectedState → ActualState → List StateMismatch
field_mismatch status_field e a =
    compare_field status_field status_value same_status e.status (some a.status)
field_mismatch round_index_field e a =
    compare_field round_index_field number_value ◌==◌ e.round_index a.round_index
field_mismatch contributions_received_field e a =
    compare_field contributions_received_field number_value ◌==◌ e.contributions_received
      a.contributions_received
field_mismatch has_contributed_field e a =
    compare_field has_contributed_field boolean_value same_flag e.has_contributed a.has_contributed
field_mismatch paid_out_field e a =
    compare_field paid_out_field boolean_value same_flag e.paid_out a.paid_out

unfoldable pub detect_state_mismatches : ExpectedState → ActualState → List StateMismatch
unfolding compare_field
detect_state_mismatches e a =
    field_mismatch status_field e a
    ++ (field_mismatch round_index_field e a
        ++ (field_mismatch contributions_received_field e a
            ++ (field_mismatch has_contributed_field e a ++ field_mismatch paid_out_field e a)))

abbrev pub map_value : {A : Type 0} → (A → FieldValue) → Option A → Option FieldValue
map_value value none = none
map_value value (some x) = some (value x)

-- What the caller pinned for a field, and what the fresh read knows of it.
abbrev pub pinned : StateField → ExpectedState → Option FieldValue
pinned status_field e = map_value status_value e.status
pinned round_index_field e = map_value number_value e.round_index
pinned contributions_received_field e = map_value number_value e.contributions_received
pinned has_contributed_field e = map_value boolean_value e.has_contributed
pinned paid_out_field e = map_value boolean_value e.paid_out

abbrev pub known : StateField → ActualState → Option FieldValue
known status_field a = some (status_value a.status)
known round_index_field a = map_value number_value a.round_index
known contributions_received_field a = map_value number_value a.contributions_received
known has_contributed_field a = map_value boolean_value a.has_contributed
known paid_out_field a = map_value boolean_value a.paid_out

abbrev pub Reported : StateMismatch → List StateMismatch → Type 0
Reported m [] = ⊥
Reported m (n ∷ ms) = (n ≡ m) ⊎ Reported m ms

Reported-append :
    (m : StateMismatch) (xs ys : List StateMismatch)
    → Reported m (xs ++ ys) ↔ (Reported m xs ⊎ Reported m ys)
Reported-append m [] ys = ground arith
Reported-append m (x ∷ xs) ys = ground (arith, Reported-append m xs ys)

compare_field_iff :
    {A : Type 0} (f : StateField) (value : A → FieldValue) (same : A → A → Bool)
    → ((x y : A) → (same x y ≡ true) ↔ (value y ≡ value x))
    → (e a : Option A) (m : StateMismatch)
    → Reported m (compare_field f value same e a) ↔ (
        (f ≡ m.field)
        × (map_value value e ≡ some m.expected)
        × (map_value value a ≡ some m.actual)
        × (m.expected ≢ m.actual))
unfolding compare_field
compare_field_iff f value same agree none a m = ground arith
compare_field_iff f value same agree (some e) none m = ground arith
compare_field_iff f value same agree (some e) (some a) m = ground (arith, agree a e)

same_status_iff :
    (x y : CircleStatus) → (same_status x y ≡ true) ↔ (status_value y ≡ status_value x)
same_status_iff pending y = ground arith
same_status_iff x y = ground arith

same_flag_iff : (x y : Bool) → (same_flag x y ≡ true) ↔ (boolean_value y ≡ boolean_value x)
same_flag_iff x y = ground arith

same_number_iff : (x y : ℕ) → ((x == y) ≡ true) ↔ (number_value y ≡ number_value x)
same_number_iff x y = ground arith

module _ (e : ExpectedState) (a : ActualState) (m : StateMismatch) where
  field_mismatch_iff :
      (f : StateField)
      → Reported m (field_mismatch f e a) ↔ (
          (f ≡ m.field)
          × (pinned f e ≡ some m.expected)
          × (known f a ≡ some m.actual)
          × (m.expected ≢ m.actual))
  field_mismatch_iff status_field =
      compare_field_iff status_field status_value same_status same_status_iff _ _ m
  field_mismatch_iff round_index_field =
      compare_field_iff round_index_field number_value ◌==◌ same_number_iff _ _ m
  field_mismatch_iff contributions_received_field =
      compare_field_iff contributions_received_field number_value ◌==◌ same_number_iff _ _ m
  field_mismatch_iff has_contributed_field =
      compare_field_iff has_contributed_field boolean_value same_flag same_flag_iff _ _ m
  field_mismatch_iff paid_out_field =
      compare_field_iff paid_out_field boolean_value same_flag same_flag_iff _ _ m

  part : StateField → List StateMismatch
  part f = field_mismatch f e a

  part_iff :
      (f : StateField)
      → Reported m (part f) ↔ (
          (f ≡ m.field)
          × (pinned f e ≡ some m.expected)
          × (known f a ≡ some m.actual)
          × (m.expected ≢ m.actual))
  unfolding part
  part_iff f = field_mismatch_iff f

  detect_parts :
      detect_state_mismatches e a
      ≡ part status_field
        ++ (part round_index_field
            ++ (part contributions_received_field
                ++ (part has_contributed_field ++ part paid_out_field)))
  unfolding part detect_state_mismatches
  detect_parts = refl

  Reported-parts :
      (p q r s t : List StateMismatch)
      → Reported m (p ++ (q ++ (r ++ (s ++ t))))
        ↔ (Reported m p ⊎ Reported m q ⊎ Reported m r ⊎ Reported m s ⊎ Reported m t)
  Reported-parts p q r s t = ground (
    arith,
    Reported-append m p (q ++ (r ++ (s ++ t))),
    Reported-append m q (r ++ (s ++ t)),
    Reported-append m r (s ++ t),
    Reported-append m s t,
  )

  Diverged : Type 0
  Diverged =
      (pinned m.field e ≡ some m.expected)
      × (known m.field a ≡ some m.actual)
      × (m.expected ≢ m.actual)

  part-Diverged : (f : StateField) → Reported m (part f) → Diverged
  unfolding Diverged
  part-Diverged f h = let (same, p, k, ne) = (part_iff f).0 h in (rw (← same) p, rw (← same) k, ne)

  Diverged-part : Diverged → Reported m (part m.field)
  unfolding Diverged
  Diverged-part d = (part_iff m.field).1 (refl, d.0, d.1, d.2)

  part-any :
      (f : StateField)
      → Reported m (part f)
      → Reported m (part status_field)
        ⊎ Reported m (part round_index_field)
        ⊎ Reported m (part contributions_received_field)
        ⊎ Reported m (part has_contributed_field)
        ⊎ Reported m (part paid_out_field)
  part-any status_field h = ground arith
  part-any f h = ground arith

  detect_iff : Reported m (detect_state_mismatches e a) ↔ Diverged
  detect_iff = rw detect_parts (
      ground (
        arith,
        Reported-parts (part status_field) (part round_index_field)
            (part contributions_received_field) (part has_contributed_field) (part paid_out_field),
        part-Diverged status_field,
        part-Diverged round_index_field,
        part-Diverged contributions_received_field,
        part-Diverged has_contributed_field,
        part-Diverged paid_out_field,
        Diverged-part,
        part-any m.field,
      ))

-- A mismatch is reported if and only if the caller pinned its field to the expected value, the
-- fresh read knows the field, and the known value is another one, which the report carries.
pub Reported-iff :
    (e : ExpectedState) (a : ActualState) (m : StateMismatch)
    → Reported m (detect_state_mismatches e a) ↔ (
        (pinned m.field e ≡ some m.expected)
        × (known m.field a ≡ some m.actual)
        × (m.expected ≢ m.actual))
unfolding Diverged
Reported-iff e a m = detect_iff e a m
