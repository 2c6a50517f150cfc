-- ===== src/Projection/Rules.antt =====
-- A property of what a handler does to the tables, for the values that it takes from the payload: it
-- holds where it holds of every error, and of what is done with the value.
use circleup.Prelude.{ℕ, ◌≡◌, refl, String, Option, none, some, leb, inl, inr, Bool-cases}
use circleup.Failures.{HandlerError}
use circleup.Ingest.{Handled, threw}
use circleup.Events.{
  Value, text, number, negative_number, fraction, bigint, negative_bigint, array, other,
}
use circleup.Projection.{Tables, max_integer}
use circleup.Projection.Statements.Values.{
  in_integer, with_integer, with_numeric, with_amount, with_amount_or_zero,
}
use circleup.Projection.Changes.{with_expected, with_recipient}

module _ {ℓ} (Φ : (Tables → Handled Tables) → Type ℓ)
    (fails : (e : HandlerError) → Φ (λ t. threw e)) where
  pub in_integer-rule :
      (n : ℕ) (next : ℕ → Tables → Handled Tables)
      → Φ (next n)
      → Φ (λ t. in_integer n (λ m. next m t))
  unfolding in_integer
  in_integer-rule n next h = elim (Bool-cases (leb n max_integer)) [
    | inl e ↦ rw e h
    | inr e ↦ rw e (fails _)
  ]

  pub with_integer-rule :
      (o : Option ℕ) (next : ℕ → Tables → Handled Tables)
      → ((n : ℕ) → o ≡ some n → Φ (next n))
      → Φ (λ t. with_integer o (λ n. next n t))
  unfolding with_integer
  with_integer-rule none next h = fails _
  with_integer-rule (some n) next h = in_integer-rule n next (h n refl)

  pub with_numeric-rule :
      (v : Value) (next : String → Tables → Handled Tables)
      → ((s : String) → Φ (next s))
      → Φ (λ t. with_numeric v (λ s. next s t))
  unfolding with_numeric
  with_numeric-rule (number n) next h = h _
  with_numeric-rule (bigint n) next h = h _
  with_numeric-rule (negative_number n) next h = h _
  with_numeric-rule (negative_bigint n) next h = h _
  with_numeric-rule (text s) next h = fails _
  with_numeric-rule (fraction s) next h = fails _
  with_numeric-rule (other s) next h = fails _
  with_numeric-rule (array vs) next h = fails _

  pub with_amount-rule :
      (o : Option Value) (next : String → Tables → Handled Tables)
      → ((s : String) → Φ (next s))
      → Φ (λ t. with_amount o (λ s. next s t))
  unfolding with_amount
  with_amount-rule none next h = fails _
  with_amount-rule (some v) next h = with_numeric-rule v next h

  pub with_amount_or_zero-rule :
      (o : Option Value) (next : String → Tables → Handled Tables)
      → ((s : String) → Φ (next s))
      → Φ (λ t. with_amount_or_zero o (λ s. next s t))
  unfolding with_amount_or_zero
  with_amount_or_zero-rule none next h = h _
  with_amount_or_zero-rule (some v) next h = with_numeric-rule v next h

  pub with_expected-rule :
      (o : Option Value) (next : Option String → Tables → Handled Tables)
      → ((s : Option String) → Φ (next s))
      → Φ (λ t. with_expected o (λ s. next s t))
  unfolding with_expected
  with_expected-rule none next h = h _
  with_expected-rule (some v) next h = with_numeric-rule v (λ s. next (some s)) (λ s. h (some s))

  pub with_recipient-rule :
      (o : Option String) (next : String → Tables → Handled Tables)
      → ((s : String) → Φ (next s))
      → Φ (λ t. with_recipient o (λ s. next s t))
  unfolding with_recipient
  with_recipient-rule none next h = fails _
  with_recipient-rule (some s) next h = h s
