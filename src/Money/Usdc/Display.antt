-- ===== src/Money/Usdc/Display.antt =====
-- sdk/src/utils.ts, `formatUsdc`: the two places that it shows.
use circleup.Prelude.{
  ℕ, ◌+◌, ◌-◌, ◌*◌, ◌/◌, ◌%◌, ◌≤◌, ◌≡◌, refl, ap, ◌∙◌, true, false, List, [], ◌∷◌, ◌++◌, length,
  ◌==◌, arith, Bool-cases, inl, inr,
}
use circleup.Money.{amount, text_amount, stroop, usdc_decimals, stroops}
use circleup.Money.Digits.{digits, is_digit, zeros, pad_end, value_from, is_empty, drop_zeros}
use circleup.Money.Digits.Laws.{
  IsDigits, digits-IsDigits, digits-IsFilled, value_from-digits, length-drop_zeros,
}
use circleup.Money.Usdc.{usdc_to_stroops, fraction_digits, take_chars, format_usdc}
use circleup.Money.Usdc.Laws.{
  with_point-Reads, usdc_to_stroops-Reads, fraction_digits-IsDigits, length-fraction_digits,
  value_from-fraction_digits,
}

two_places :
    (a b : ℕ)
    → is_digit a ≡ true
    → is_digit b ≡ true
    → value_from 0 (pad_end 7 (drop_zeros (a ∷ b ∷ []))) ≡ (a - 48) * 1000000 + (b - 48) * 100000
unfolding drop_zeros pad_end value_from zeros
two_places a b h k = elim (Bool-cases (b == b'0')) [
  | inr e ↦ rw e (omega arith)
  | inl e ↦ elim (Bool-cases (a == b'0')) [
    | inl z ↦ rw (e, z) (ground (arith, e, z))
    | inr z ↦ rw (e, z) (ground (arith, e, z))
  ]
]

nine : (c : ℕ) → is_digit c ≡ true → c - 48 ≤ 9
nine c h = ground (arith, h)

-- The two digits of the display, and the value of the seven.
abbrev Shows : List ℕ → ℕ → Type 0
Shows fs v =
    IsDigits (take_chars 2 fs)
    × (is_empty (take_chars 2 fs) ≡ false)
    × (length (take_chars 2 fs) ≡ 2)
    × (value_from 0 (pad_end 7 (drop_zeros (take_chars 2 fs))) ≡ v - v % 100000)

seven-Shows : (fs : List ℕ) → length fs ≡ 7 → IsDigits fs → Shows fs (value_from 0 fs)
unfolding take_chars value_from
seven-Shows (a ∷ b ∷ c ∷ d ∷ e ∷ f ∷ g ∷ []) n (ha, (hb, (hc, (hd, (he, (hf, (hg, _))))))) = (
  (ha, (hb, tt)),
  refl,
  refl,
  two_places a b ha hb ∙ omega (arith, nine c hc, nine d hd, nine e he, nine f hf, nine g hg),
)
seven-Shows [] n h = absurd (omega (arith, n))
seven-Shows (a ∷ []) n h = absurd (omega (arith, n))
seven-Shows (a ∷ b ∷ []) n h = absurd (omega (arith, n))
seven-Shows (a ∷ b ∷ c ∷ []) n h = absurd (omega (arith, n))
seven-Shows (a ∷ b ∷ c ∷ d ∷ []) n h = absurd (omega (arith, n))
seven-Shows (a ∷ b ∷ c ∷ d ∷ e ∷ []) n h = absurd (omega (arith, n))
seven-Shows (a ∷ b ∷ c ∷ d ∷ e ∷ f ∷ []) n h = absurd (omega (arith, n))
seven-Shows (a ∷ b ∷ c ∷ d ∷ e ∷ f ∷ g ∷ x ∷ xs) n h = absurd (omega (arith, n))

-- What `formatUsdc` shows is the amount rounded down to 100000 stroops, a hundredth of a USDC: read
-- again it is never more than the amount, and less by under a hundredth.
pub usdc_to_stroops-format_usdc :
    (n : ℕ) → usdc_to_stroops (text_amount (format_usdc (amount n))) ≡ stroops (n - n % 100000)
unfolding format_usdc
usdc_to_stroops-format_usdc n =
    let ws = digits (n / stroop) in
    let fs = fraction_digits n in
    let (ds, filled, two, worth) =
      seven-Shows fs (length-fraction_digits n) (fraction_digits-IsDigits n) in
    let short : length (drop_zeros (take_chars 2 fs)) ≤ usdc_decimals =
      omega (arith, length-drop_zeros (take_chars 2 fs), two) in
    let all : value_from 0 ws * stroop
          + value_from 0 (pad_end usdc_decimals (drop_zeros (take_chars 2 fs)))
        ≡ n - n % 100000 =
      omega (arith, value_from-digits (n / stroop), value_from-fraction_digits n, worth) in
    usdc_to_stroops-Reads (ws ++ b'.' ∷ take_chars 2 fs) ws (take_chars 2 fs)
      (with_point-Reads ws (take_chars 2 fs) (digits-IsDigits (n / stroop))
        (digits-IsFilled (n / stroop)) ds filled)
      short
    ∙ ap stroops all
