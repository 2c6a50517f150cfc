-- ===== src/Money/Digits/Laws.antt =====
-- Digits: what they are worth, their number, and the zeros at their ends.
use circleup.Prelude.{
  ℕ, zero, suc, ◌+◌, ◌-◌, ◌*◌, ◌/◌, ◌%◌, ◌≤◌, ◌<◌, ◌≡◌, refl, sym, ap, ◌∙◌, true, false, ◌&&◌, List,
  [], ◌∷◌, ◌++◌, length, length-append, ltb, ◌==◌, All, arith, Bool-cases, inl, inr,
}
use circleup.Money.Digits.{
  digits_from, digits, is_digit, zeros, pad_start, pad_end, value_from, is_empty, drop_zeros,
  span_digits,
}

abbrev pub IsDigits : List ℕ → Type 0
IsDigits = All (λ c. is_digit c ≡ true)

pub IsDigits-append : (xs ys : List ℕ) → IsDigits xs → IsDigits ys → IsDigits (xs ++ ys)
IsDigits-append [] ys h k = k
IsDigits-append (x ∷ xs) ys (h, hs) k = (h, IsDigits-append xs ys hs k)

digits_from-IsDigits : (fuel n : ℕ) → IsDigits (digits_from fuel n)
unfolding digits_from
digits_from-IsDigits zero n = tt
digits_from-IsDigits (suc fuel) n = elim (Bool-cases (ltb n 10)) [
  | inl lt ↦ rw lt (ground (arith, lt), tt)
  | inr ge ↦ rw ge (
      IsDigits-append (digits_from fuel (n / 10)) _ (digits_from-IsDigits fuel (n / 10))
        (ground arith, tt))
]

pub digits-IsDigits : (n : ℕ) → IsDigits (digits n)
unfolding digits
digits-IsDigits n = digits_from-IsDigits (suc n) n

value_from-snoc :
    (n c : ℕ) (cs : List ℕ) → value_from n (cs ++ c ∷ []) ≡ value_from n cs * 10 + (c - b'0')
unfolding value_from
value_from-snoc n c [] = refl
value_from-snoc n c (d ∷ ds) = value_from-snoc (n * 10 + (d - b'0')) c ds

digits_from-value : (fuel n : ℕ) → n < fuel → value_from 0 (digits_from fuel n) ≡ n
unfolding digits_from value_from
digits_from-value zero n h = absurd (omega (arith, h))
digits_from-value (suc fuel) n h = elim (Bool-cases (ltb n 10)) [
  | inl lt ↦ rw lt (omega arith)
  | inr ge ↦ rw ge (
      value_from-snoc 0 (b'0' + n % 10) (digits_from fuel (n / 10))
      ∙ omega (arith, digits_from-value fuel (n / 10) (ground (arith, h, ge))))
]

-- The digits of a number are worth it.
pub value_from-digits : (n : ℕ) → value_from 0 (digits n) ≡ n
unfolding digits
value_from-digits n = digits_from-value (suc n) n (omega arith)

pow10 : ℕ → ℕ
pow10 zero = 1
pow10 (suc k) = 10 * pow10 k

length-digits_from : (fuel n k : ℕ) → n < 10 * pow10 k → length (digits_from fuel n) ≤ suc k
unfolding digits_from pow10
length-digits_from zero n k h = omega arith
length-digits_from (suc fuel) n zero h = elim (Bool-cases (ltb n 10)) [
  | inl lt ↦ rw lt (omega arith)
  | inr ge ↦ absurd (ground (arith, ge, h))
]
length-digits_from (suc fuel) n (suc k) h = elim (Bool-cases (ltb n 10)) [
  | inl lt ↦ rw lt (omega arith)
  | inr ge ↦ rw ge (
      omega (
        arith,
        length-append (digits_from fuel (n / 10)) ((b'0' + n % 10) ∷ []),
        length-digits_from fuel (n / 10) k (omega (arith, h)),
      ))
]

pub length-digits : (n : ℕ) → n < 10000000 → length (digits n) ≤ 7
unfolding digits pow10
length-digits n h = length-digits_from (suc n) n 6 h

-- A text that is not empty.
abbrev pub IsFilled : List ℕ → Type 0
IsFilled cs = is_empty cs ≡ false

pub append-IsFilled : (xs : List ℕ) (y : ℕ) (ys : List ℕ) → IsFilled (xs ++ y ∷ ys)
append-IsFilled [] y ys = refl
append-IsFilled (x ∷ xs) y ys = refl

pub digits-IsFilled : (n : ℕ) → IsFilled (digits n)
unfolding digits digits_from
digits-IsFilled n = elim (Bool-cases (ltb n 10)) [
  | inl lt ↦ rw lt refl
  | inr ge ↦ rw ge (append-IsFilled (digits_from n (n / 10)) (b'0' + n % 10) [])
]

pub zeros-IsDigits : (n : ℕ) → IsDigits (zeros n)
unfolding zeros
zeros-IsDigits zero = tt
zeros-IsDigits (suc n) = (refl, zeros-IsDigits n)

length-zeros : (n : ℕ) → length (zeros n) ≡ n
unfolding zeros
length-zeros zero = refl
length-zeros (suc n) = ap suc (length-zeros n)

value_from-zeros : (n : ℕ) (cs : List ℕ) → value_from 0 (zeros n ++ cs) ≡ value_from 0 cs
unfolding zeros value_from
value_from-zeros zero cs = refl
value_from-zeros (suc n) cs = value_from-zeros n cs

pub value_from-pad_start : (n : ℕ) (cs : List ℕ) → value_from 0 (pad_start n cs) ≡ value_from 0 cs
unfolding pad_start
value_from-pad_start n cs = value_from-zeros (n - length cs) cs

pub length-pad_start : (n : ℕ) (cs : List ℕ) → length cs ≤ n → length (pad_start n cs) ≡ n
unfolding pad_start
length-pad_start n cs h =
    omega (arith, length-append (zeros (n - length cs)) cs, length-zeros (n - length cs), h)

pub pad_start-IsDigits : (n : ℕ) (cs : List ℕ) → IsDigits cs → IsDigits (pad_start n cs)
unfolding pad_start
pad_start-IsDigits n cs h =
    IsDigits-append (zeros (n - length cs)) cs (zeros-IsDigits (n - length cs)) h

pub drop_zeros_twice : (cs : List ℕ) → drop_zeros (drop_zeros cs) ≡ drop_zeros cs
unfolding drop_zeros
drop_zeros_twice [] = refl
drop_zeros_twice (c ∷ cs) = elim (Bool-cases (is_empty (drop_zeros cs) && c == b'0')) [
  | inl e ↦ rw e refl
  | inr e ↦ rw (e, drop_zeros_twice cs, e) refl
]

pub drop_zeros-IsDigits : (cs : List ℕ) → IsDigits cs → IsDigits (drop_zeros cs)
unfolding drop_zeros
drop_zeros-IsDigits [] h = tt
drop_zeros-IsDigits (c ∷ cs) (h, hs) = elim (Bool-cases (is_empty (drop_zeros cs) && c == b'0')) [
  | inl e ↦ rw e tt
  | inr e ↦ rw e (h, drop_zeros-IsDigits cs hs)
]

pub length-drop_zeros : (cs : List ℕ) → length (drop_zeros cs) ≤ length cs
unfolding drop_zeros
length-drop_zeros [] = omega arith
length-drop_zeros (c ∷ cs) = elim (Bool-cases (is_empty (drop_zeros cs) && c == b'0')) [
  | inl e ↦ rw e (omega arith)
  | inr e ↦ rw e (omega (arith, length-drop_zeros cs))
]

-- The zeros that were dropped, put back.
drop_zeros-zeros : (cs : List ℕ) → drop_zeros cs ++ zeros (length cs - length (drop_zeros cs)) ≡ cs
unfolding drop_zeros zeros
drop_zeros-zeros [] = refl
drop_zeros-zeros (c ∷ cs) = elim (Bool-cases (is_empty (drop_zeros cs) && c == b'0')) [
  | inl e ↦
      let all : suc (length cs) - 0 ≡ suc (length cs) = omega arith in
      rw e (ap zeros all ∙ all_zeros (drop_zeros cs) (drop_zeros-zeros cs) e)
  | inr e ↦
      let same : suc (length cs) - suc (length (drop_zeros cs))
          ≡ length cs - length (drop_zeros cs) =
        omega arith in
      rw e
        (ap (λ n. c ∷ drop_zeros cs ++ zeros n) same ∙ ap (λ rest. c ∷ rest) (drop_zeros-zeros cs))
]
  where
    all_zeros :
        (rest : List ℕ)
        → rest ++ zeros (length cs - length rest) ≡ cs
        → (is_empty rest && c == b'0') ≡ true
        → b'0' ∷ zeros (length cs) ≡ c ∷ cs
    all_zeros [] h e =
        let same : b'0' ≡ c = ground (arith, e) in
        let all : length cs ≡ length cs - 0 = omega arith in
        ap (λ n. b'0' ∷ zeros n) all ∙ ap (λ rest. b'0' ∷ rest) h ∙ ap (λ d. d ∷ cs) same
    all_zeros (d ∷ ds) h e = ground (arith, e)

pub pad_end-drop_zeros : (n : ℕ) (cs : List ℕ) → length cs ≡ n → pad_end n (drop_zeros cs) ≡ cs
unfolding pad_end
pad_end-drop_zeros n cs h = rw (sym h) (drop_zeros-zeros cs)

pub span_digits-append :
    (ds rest : List ℕ)
    → IsDigits ds
    → span_digits rest ≡ ([], rest)
    → span_digits (ds ++ rest) ≡ (ds, rest)
unfolding span_digits
span_digits-append [] rest h k = k
span_digits-append (d ∷ ds) rest (h, hs) k = rw (span_digits-append ds rest hs k, h) refl
