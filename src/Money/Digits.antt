-- ===== src/Money/Digits.antt =====
-- Decimal digits as code points.
pub mod Laws
use circleup.Prelude.{
  ℕ, zero, suc, ◌+◌, ◌-◌, ◌*◌, ◌/◌, ◌%◌, Bool, true, false, not, ◌&&◌, ◌||◌, List, [], ◌∷◌, ◌++◌,
  length, ltb, leb, ◌==◌, if◌then◌else◌,
}

-- The digits of a number, on fuel; a number has fewer digits than `suc n`.
pub digits_from : ℕ → ℕ → List ℕ
digits_from zero n = []
digits_from (suc fuel) n =
    let rest = digits_from fuel (n / 10) in
    if ltb n 10 then (b'0' + n) ∷ [] else rest ++ (b'0' + n % 10) ∷ []

-- `n.toString()`
unfoldable pub digits : ℕ → List ℕ
unfolding digits_from
digits n = digits_from (suc n) n

abbrev pub is_digit : ℕ → Bool
is_digit c = leb b'0' c && leb c b'9'

unfoldable pub zeros : ℕ → List ℕ
zeros zero = []
zeros (suc n) = b'0' ∷ zeros n

-- `s.padStart(n, "0")` and `s.padEnd(n, "0")`
unfoldable pub pad_start : ℕ → List ℕ → List ℕ
unfolding zeros
pad_start n s = zeros (n - length s) ++ s

unfoldable pub pad_end : ℕ → List ℕ → List ℕ
unfolding zeros
pad_end n s = s ++ zeros (n - length s)

-- `BigInt(s)` of a text of digits, after those that make `n`.
unfoldable pub value_from : ℕ → List ℕ → ℕ
value_from n [] = n
value_from n (c ∷ cs) = value_from (n * 10 + (c - b'0')) cs

abbrev pub is_empty : List ℕ → Bool
is_empty [] = true
is_empty (c ∷ cs) = false

-- `s.replace(/0+$/, "")`
unfoldable pub drop_zeros : List ℕ → List ℕ
drop_zeros [] = []
drop_zeros (c ∷ cs) =
    let rest = drop_zeros cs in if is_empty rest && c == b'0' then [] else c ∷ rest

-- The digits at the start, and what follows.
unfoldable pub span_digits : List ℕ → List ℕ × List ℕ
span_digits [] = ([], [])
span_digits (c ∷ cs) =
    let (ds, rest) = span_digits cs in if is_digit c then (c ∷ ds, rest) else ([], c ∷ cs)
