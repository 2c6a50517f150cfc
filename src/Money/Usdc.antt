-- ===== src/Money/Usdc.antt =====
-- sdk/src/utils.ts: `usdcToStroops`, `stroopsToUsdc`, `formatUsdc` and `formatPot`. An exponent so
-- large that the text cannot be built is not modelled.
pub mod Laws
pub mod Display
use circleup.Prelude.{
  ℕ, zero, suc, ◌+◌, ◌-◌, ◌*◌, ◌/◌, ◌%◌, Bool, true, false, not, ◌&&◌, ◌||◌, Option, none, some,
  List, [], ◌∷◌, ◌++◌, any, length, ltb, leb, ◌==◌, if◌then◌else◌,
}
use circleup.Money.{
  Stroops, amount, negative, not_integer, UsdcInput, text_amount, finite_number, not_finite, stroop,
  usdc_decimals, UsdcError, no_number, no_text, below_zero, bad_exponent, not_decimal, too_precise,
  UsdcResult, stroops, refused,
}
use circleup.Money.Digits.{
  digits, zeros, pad_start, pad_end, value_from, is_empty, drop_zeros, span_digits,
}

-- The white space that `trim` removes.
abbrev pub is_space : ℕ → Bool
is_space c =
    (leb 9 c && leb c 13)
    || any (λ s. c == s) (32 ∷ 160 ∷ 5760 ∷ 8232 ∷ 8233 ∷ 8239 ∷ 8287 ∷ 12288 ∷ 65279 ∷ [])
    || (leb 8192 c && leb c 8202)

unfoldable pub trim_start : List ℕ → List ℕ
trim_start [] = []
trim_start (c ∷ cs) = let rest = trim_start cs in if is_space c then rest else c ∷ cs

unfoldable pub trim_end : List ℕ → List ℕ
trim_end [] = []
trim_end (c ∷ cs) = let rest = trim_end cs in if is_empty rest && is_space c then [] else c ∷ rest

-- What follows a point: digits to the end.
unfoldable pub fraction_of : List ℕ → Option (List ℕ)
unfolding span_digits
fraction_of cs =
    let (ds, rest) = span_digits cs in if not (is_empty ds) && is_empty rest then some ds else none

abbrev pub after_whole : List ℕ → Option (List ℕ) → Option (List ℕ × List ℕ)
after_whole ds none = none
after_whole ds (some fraction) = some (ds, fraction)

unfoldable pub decimal_rest : List ℕ → List ℕ → Option (List ℕ × List ℕ)
unfolding fraction_of
decimal_rest ds [] = some (ds, [])
decimal_rest ds (c ∷ cs) =
    let parts = after_whole ds (fraction_of cs) in if c == b'.' then parts else none

-- `/^\d+(\.\d+)?$/`, with the digits before and after the point.
unfoldable pub split_decimal : List ℕ → Option (List ℕ × List ℕ)
unfolding span_digits decimal_rest
split_decimal t =
    let (ds, rest) = span_digits t in if is_empty ds then none else decimal_rest ds rest

abbrev pub is_e : ℕ → Bool
is_e c = c == b'e' || c == b'E'

abbrev pub after_char : ℕ → Option (List ℕ × List ℕ) → Option (List ℕ × List ℕ)
after_char c none = none
after_char c (some (before, after)) = some (c ∷ before, after)

-- What stands before the first `e` or `E`, and after it.
unfoldable pub split_at_e : List ℕ → Option (List ℕ × List ℕ)
split_at_e [] = none
split_at_e (c ∷ cs) =
    let rest = after_char c (split_at_e cs) in if is_e c then some ([], cs) else rest

-- `[+-]?\d+`, as whether it is below zero and its size.
unfoldable pub unsigned : List ℕ → Option ℕ
unfolding span_digits value_from
unsigned t =
    let (ds, rest) = span_digits t in
    if not (is_empty ds) && is_empty rest then some (value_from 0 ds) else none

abbrev pub with_sign : Bool → Option ℕ → Option (Bool × ℕ)
with_sign b none = none
with_sign b (some n) = some (b, n)

unfoldable pub exponent_of : List ℕ → Option (Bool × ℕ)
unfolding unsigned
exponent_of [] = none
exponent_of (c ∷ cs) =
    if c == b'-'
    then with_sign true (unsigned cs)
    else if c == b'+'
    then with_sign false (unsigned cs)
    else with_sign false (unsigned (c ∷ cs))

unfoldable pub take_chars : ℕ → List ℕ → List ℕ
take_chars n [] = []
take_chars zero (c ∷ cs) = []
take_chars (suc n) (c ∷ cs) = c ∷ take_chars n cs

unfoldable pub drop_chars : ℕ → List ℕ → List ℕ
drop_chars n [] = []
drop_chars zero (c ∷ cs) = c ∷ cs
drop_chars (suc n) (c ∷ cs) = drop_chars n cs

-- The point at `n` from the left, where it is not before the first digit.
abbrev pub point_at : ℕ → List ℕ → List ℕ
point_at n ds =
    if leb (length ds) n
    then ds ++ zeros (n - length ds)
    else take_chars n ds ++ b'.' ∷ drop_chars n ds

unfoldable pub expand_scientific_notation : List ℕ → List ℕ → Bool × ℕ → List ℕ
unfolding zeros take_chars drop_chars
expand_scientific_notation whole fraction (false, e) =
    if length whole + e == 0
    then b'0' ∷ b'.' ∷ whole ++ fraction
    else point_at (length whole + e) (whole ++ fraction)
expand_scientific_notation whole fraction (true, e) =
    if leb (length whole) e
    then b'0' ∷ b'.' ∷ zeros (e - length whole) ++ whole ++ fraction
    else point_at (length whole - e) (whole ++ fraction)

pub data Plain : Type 0 where
  plain : List ℕ → Plain
  not_plain : UsdcError → Plain

abbrev pub expanded : Option (List ℕ × List ℕ) → Option (Bool × ℕ) → Plain
expanded (some (whole, fraction)) (some e) = plain (expand_scientific_notation whole fraction e)
expanded _ _ = not_plain bad_exponent

unfoldable pub expand_exponent : List ℕ → Option (List ℕ × List ℕ) → Plain
unfolding expand_scientific_notation split_decimal exponent_of
expand_exponent t none = plain t
expand_exponent t (some (before, after)) = expanded (split_decimal before) (exponent_of after)

abbrev pub starts_below_zero : List ℕ → Bool
starts_below_zero [] = false
starts_below_zero (c ∷ cs) = c == b'-'

unfoldable pub plain_text : List ℕ → Plain
unfolding expand_exponent split_at_e
plain_text t =
    if is_empty t
    then not_plain no_text
    else if starts_below_zero t
    then not_plain below_zero
    else expand_exponent t (split_at_e t)

unfoldable pub to_plain_decimal_string : UsdcInput → Plain
unfolding plain_text trim_start trim_end
to_plain_decimal_string not_finite = not_plain no_number
to_plain_decimal_string (finite_number t) = plain_text t
to_plain_decimal_string (text_amount t) = plain_text (trim_end (trim_start t))

unfoldable pub stroops_of_parts : List ℕ → List ℕ → UsdcResult
unfolding value_from pad_end
stroops_of_parts whole fraction =
    if ltb usdc_decimals (length fraction)
    then refused too_precise
    else stroops (value_from 0 whole * stroop + value_from 0 (pad_end usdc_decimals fraction))

unfoldable pub stroops_of_decimal : Option (List ℕ × List ℕ) → UsdcResult
unfolding stroops_of_parts drop_zeros
stroops_of_decimal none = refused not_decimal
stroops_of_decimal (some (whole, fraction)) = stroops_of_parts whole (drop_zeros fraction)

unfoldable pub stroops_of_plain : Plain → UsdcResult
unfolding stroops_of_decimal split_decimal
stroops_of_plain (not_plain e) = refused e
stroops_of_plain (plain t) = stroops_of_decimal (split_decimal t)

unfoldable pub usdc_to_stroops : UsdcInput → UsdcResult
unfolding stroops_of_plain to_plain_decimal_string
usdc_to_stroops usdc = stroops_of_plain (to_plain_decimal_string usdc)

-- `(n % STROOP).toString().padStart(USDC_DECIMALS, "0")`
abbrev pub fraction_digits : ℕ → List ℕ
fraction_digits n = pad_start usdc_decimals (digits (n % stroop))

-- A point at the end of the text.
unfoldable pub drop_point : List ℕ → List ℕ
drop_point [] = []
drop_point (c ∷ cs) = let rest = drop_point cs in if is_empty cs && c == b'.' then [] else c ∷ rest

-- `s.replace(/\.?0+$/, "")`: the zeros at the end, and a point before them.
unfoldable pub strip_zeros : List ℕ → List ℕ
unfolding drop_zeros drop_point
strip_zeros t =
    let shorter = drop_zeros t in if length shorter == length t then t else drop_point shorter

abbrev pub or_zero : List ℕ → List ℕ
or_zero t = if is_empty t then b'0' ∷ [] else t

unfoldable pub stroops_to_usdc : Stroops → List ℕ
stroops_to_usdc (amount n) = or_zero (strip_zeros (digits (n / stroop) ++ b'.' ∷ fraction_digits n))
stroops_to_usdc _ = b'0' ∷ []

unfoldable pub format_usdc : Stroops → List ℕ
format_usdc (amount n) = digits (n / stroop) ++ b'.' ∷ take_chars 2 (fraction_digits n)
format_usdc _ = b'0' ∷ b'.' ∷ b'0' ∷ b'0' ∷ []

-- The member count is an integer that is not negative, or `none`.
unfoldable pub format_pot : Stroops → Option ℕ → List ℕ
unfolding format_usdc
format_pot (amount n) (some members) = format_usdc (amount (n * members))
format_pot _ _ = b'0' ∷ b'.' ∷ b'0' ∷ b'0' ∷ []
