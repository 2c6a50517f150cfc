-- ===== src/Money/Usdc/Laws.antt =====
-- sdk/src/utils.ts: what `usdcToStroops` reads of the texts that `stroopsToUsdc` and `formatUsdc` write.
use circleup.Prelude.{
  ℕ, suc, ◌+◌, ◌*◌, ◌/◌, ◌%◌, ◌≤◌, ◌≡◌, refl, sym, ap, ◌∙◌, inl, inr, true, false, ◌&&◌, ◌||◌, none,
  some, List, [], ◌∷◌, ◌++◌, length, length-append, ltb, ◌==◌, All, arith, Bool-cases,
}
use circleup.Money.{amount, text_amount, stroop, usdc_decimals, stroops}
use circleup.Money.Digits.{digits, is_digit, pad_end, value_from, is_empty, drop_zeros, span_digits}
use circleup.Money.Digits.Laws.{
  IsDigits, digits-IsDigits, value_from-digits, length-digits, IsFilled, append-IsFilled,
  digits-IsFilled, value_from-pad_start, length-pad_start, pad_start-IsDigits, drop_zeros_twice,
  drop_zeros-IsDigits, length-drop_zeros, pad_end-drop_zeros, span_digits-append,
}
use circleup.Money.Usdc.{
  is_space, trim_start, trim_end, fraction_of, decimal_rest, split_decimal, is_e, split_at_e, plain,
  plain_text, starts_below_zero, expand_exponent, to_plain_decimal_string, stroops_of_parts,
  stroops_of_decimal, stroops_of_plain, usdc_to_stroops, fraction_digits, drop_point, strip_zeros,
  stroops_to_usdc,
}

-- Digits and points.
abbrev IsPlain : List ℕ → Type 0
IsPlain = All (λ c. (is_digit c || c == b'.') ≡ true)

trim_start_plain : (t : List ℕ) → IsPlain t → trim_start t ≡ t
unfolding trim_start
trim_start_plain [] h = refl
trim_start_plain (c ∷ cs) (h, hs) = ground (arith, h)

trim_end_plain : (t : List ℕ) → IsPlain t → trim_end t ≡ t
unfolding trim_end
trim_end_plain [] h = refl
trim_end_plain (c ∷ cs) (h, hs) =
    let spaceless : is_space c ≡ false = ground (arith, h) in
    rw (trim_end_plain cs hs, spaceless) (ground arith)

split_at_e_plain : (t : List ℕ) → IsPlain t → split_at_e t ≡ none
unfolding split_at_e
split_at_e_plain [] h = refl
split_at_e_plain (c ∷ cs) (h, hs) =
    let not_e : is_e c ≡ false = ground (arith, h) in rw (not_e, split_at_e_plain cs hs) refl

plain_text_plain : (t : List ℕ) → IsPlain t → IsFilled t → plain_text t ≡ plain t
unfolding plain_text expand_exponent
plain_text_plain [] h f = ground (arith, f)
plain_text_plain (c ∷ cs) (h, hs) f =
    let above : starts_below_zero (c ∷ cs) ≡ false = ground (arith, h) in
    rw (above, split_at_e_plain (c ∷ cs) (h, hs)) refl

IsDigits-IsPlain : (ds : List ℕ) → IsDigits ds → IsPlain ds
IsDigits-IsPlain [] h = tt
IsDigits-IsPlain (d ∷ ds) (h, hs) = (ground (arith, h), IsDigits-IsPlain ds hs)

with_point-IsPlain : (ws fs : List ℕ) → IsDigits ws → IsDigits fs → IsPlain (ws ++ b'.' ∷ fs)
with_point-IsPlain [] fs h k = (refl, IsDigits-IsPlain fs k)
with_point-IsPlain (w ∷ ws) fs (h, hs) k = (ground (arith, h), with_point-IsPlain ws fs hs k)

-- A text that reads as the digits before a point and those after it.
abbrev Reads : List ℕ → List ℕ → List ℕ → Type 0
Reads t whole fraction = (split_decimal t ≡ some (whole, fraction)) × IsPlain t × IsFilled t

append_nil : (ds : List ℕ) → ds ++ [] ≡ ds
append_nil [] = refl
append_nil (d ∷ ds) = ap (λ rest. d ∷ rest) (append_nil ds)

span_digits_all : (ds : List ℕ) → IsDigits ds → span_digits ds ≡ (ds, [])
unfolding span_digits
span_digits_all ds h = ap span_digits (sym (append_nil ds)) ∙ span_digits-append ds [] h refl

whole-Reads : (ws : List ℕ) → IsDigits ws → IsFilled ws → Reads ws ws []
unfolding split_decimal decimal_rest
whole-Reads ws h f = (rw (span_digits_all ws h, f) refl, IsDigits-IsPlain ws h, f)

pub with_point-Reads :
    (ws fs : List ℕ)
    → IsDigits ws
    → IsFilled ws
    → IsDigits fs
    → IsFilled fs
    → Reads (ws ++ b'.' ∷ fs) ws fs
unfolding split_decimal decimal_rest fraction_of span_digits
with_point-Reads ws fs h f k g = (
  rw (span_digits-append ws (b'.' ∷ fs) h refl, f, span_digits_all fs k, g) refl,
  with_point-IsPlain ws fs h k,
  append-IsFilled ws b'.' fs,
)

drop_zeros-point : (ws fs : List ℕ) → drop_zeros (ws ++ b'.' ∷ fs) ≡ ws ++ b'.' ∷ drop_zeros fs
unfolding drop_zeros
drop_zeros-point [] fs = ground arith
drop_zeros-point (w ∷ ws) fs =
    rw (drop_zeros-point ws fs, append-IsFilled ws b'.' (drop_zeros fs)) refl

drop_point-digits : (fs : List ℕ) → IsDigits fs → drop_point fs ≡ fs
unfolding drop_point
drop_point-digits [] h = refl
drop_point-digits (d ∷ ds) (h, hs) = rw (drop_point-digits ds hs) (ground (arith, h))

drop_point-end : (ws : List ℕ) → drop_point (ws ++ b'.' ∷ []) ≡ ws
unfolding drop_point
drop_point-end [] = refl
drop_point-end (w ∷ ws) = rw (append-IsFilled ws b'.' [], drop_point-end ws) refl

drop_point-inside :
    (ws fs : List ℕ) → IsDigits fs → IsFilled fs → drop_point (ws ++ b'.' ∷ fs) ≡ ws ++ b'.' ∷ fs
unfolding drop_point
drop_point-inside [] fs k g = rw (g, drop_point-digits fs k) refl
drop_point-inside (w ∷ ws) fs k g =
    rw (append-IsFilled ws b'.' fs, drop_point-inside ws fs k g) refl

-- Zeros that are not there are not dropped.
drop_zeros_full : (fs : List ℕ) → length (drop_zeros fs) ≡ length fs → drop_zeros fs ≡ fs
unfolding drop_zeros
drop_zeros_full [] h = refl
drop_zeros_full (f ∷ fs) h = elim (Bool-cases (is_empty (drop_zeros fs) && f == b'0')) [
  | inl e ↦ absurd (ground (arith, h, e))
  | inr e ↦ rw e (ap (λ rest. f ∷ rest) (drop_zeros_full fs (ground (arith, h, e))))
]

drop_point-Reads :
    (ws fs : List ℕ)
    → IsDigits ws
    → IsFilled ws
    → IsDigits fs
    → Reads (drop_point (ws ++ b'.' ∷ fs)) ws fs
drop_point-Reads ws [] h f k = rw (drop_point-end ws) (whole-Reads ws h f)
drop_point-Reads ws (d ∷ ds) h f k =
    rw (drop_point-inside ws (d ∷ ds) k refl) (with_point-Reads ws (d ∷ ds) h f k refl)

strip_zeros-Reads :
    (ws fs : List ℕ)
    → IsDigits ws
    → IsFilled ws
    → IsDigits fs
    → IsFilled fs
    → Reads (strip_zeros (ws ++ b'.' ∷ fs)) ws (drop_zeros fs)
unfolding strip_zeros
strip_zeros-Reads ws fs h f k g =
    elim (Bool-cases (length (ws ++ b'.' ∷ drop_zeros fs) == length (ws ++ b'.' ∷ fs))) [
      | inl e ↦
          let full : drop_zeros fs ≡ fs = drop_zeros_full fs (
            ground
              (arith, e, length-append ws (b'.' ∷ drop_zeros fs), length-append ws (b'.' ∷ fs))) in
          rw (drop_zeros-point ws fs, e, full) (with_point-Reads ws fs h f k g)
      | inr e ↦
          rw (drop_zeros-point ws fs, e)
            (drop_point-Reads ws (drop_zeros fs) h f (drop_zeros-IsDigits fs k))
    ]

-- A text that reads as `whole` and the first digits of a fraction, up to its zeros.
pub usdc_to_stroops-Reads :
    (t whole fraction : List ℕ)
    → Reads t whole fraction
    → length (drop_zeros fraction) ≤ usdc_decimals
    → usdc_to_stroops (text_amount t)
      ≡ stroops
          (value_from 0 whole * stroop + value_from 0 (pad_end usdc_decimals (drop_zeros fraction)))
unfolding usdc_to_stroops to_plain_decimal_string stroops_of_plain stroops_of_decimal
    stroops_of_parts
usdc_to_stroops-Reads t whole fraction (reads, is_plain, filled) short =
    let fits : ltb usdc_decimals (length (drop_zeros fraction)) ≡ false = ground (arith, short) in
    rw
      (
        trim_start_plain t is_plain,
        trim_end_plain t is_plain,
        plain_text_plain t is_plain filled,
        reads,
        fits,
      )
      refl

pub fraction_digits-IsDigits : (n : ℕ) → IsDigits (fraction_digits n)
fraction_digits-IsDigits n =
    pad_start-IsDigits 7 (digits (n % stroop)) (digits-IsDigits (n % stroop))

pub length-fraction_digits : (n : ℕ) → length (fraction_digits n) ≡ 7
length-fraction_digits n =
    length-pad_start 7 (digits (n % stroop)) (length-digits (n % stroop) (omega arith))

IsFilled-length : (n : ℕ) (cs : List ℕ) → length cs ≡ suc n → IsFilled cs
IsFilled-length n [] h = absurd (omega (arith, h))
IsFilled-length n (c ∷ cs) h = refl

pub value_from-fraction_digits : (n : ℕ) → value_from 0 (fraction_digits n) ≡ n % stroop
value_from-fraction_digits n =
    value_from-pad_start 7 (digits (n % stroop)) ∙ value_from-digits (n % stroop)

-- `usdcToStroops(stroopsToUsdc(n))` is `n`: no stroop is lost, and no amount that is written is
-- refused when it is read again.
pub usdc_to_stroops-stroops_to_usdc :
    (n : ℕ) → usdc_to_stroops (text_amount (stroops_to_usdc (amount n))) ≡ stroops n
unfolding stroops_to_usdc
usdc_to_stroops-stroops_to_usdc n =
    let ws = digits (n / stroop) in
    let fs = fraction_digits n in
    let t = strip_zeros (ws ++ b'.' ∷ fs) in
    let (reads, is_plain, filled) =
      strip_zeros-Reads ws fs (digits-IsDigits (n / stroop)) (digits-IsFilled (n / stroop))
        (fraction_digits-IsDigits n) (IsFilled-length 6 fs (length-fraction_digits n)) in
    let short : length (drop_zeros (drop_zeros fs)) ≤ usdc_decimals =
      rw (drop_zeros_twice fs) (omega (arith, length-drop_zeros fs, length-fraction_digits n)) in
    let worth : value_from 0 ws * stroop
          + value_from 0 (pad_end usdc_decimals (drop_zeros (drop_zeros fs)))
        ≡ n =
      rw (drop_zeros_twice fs, pad_end-drop_zeros 7 fs (length-fraction_digits n))
        (omega (arith, value_from-digits (n / stroop), value_from-fraction_digits n)) in
    rw filled (
      usdc_to_stroops-Reads t ws (drop_zeros fs) (reads, is_plain, filled) short ∙ ap stroops worth)
