-- ===== src/Money.antt =====
-- sdk/src/utils.ts: amounts of USDC as texts and as stroops. A text is the list of its code points.
pub mod Digits
pub mod Usdc
mod Tests
use circleup.Prelude.{
  ℕ, suc, ◌+◌, ◌-◌, Bool, true, false, not, ◌&&◌, ◌||◌, Option, none, some, List, [], ◌∷◌, ◌++◌,
  any, length, ltb, leb, ◌==◌, if◌then◌else◌,
}

-- `STROOP`
abbrev pub stroop : ℕ
stroop = 10000000

-- `USDC_DECIMALS`
abbrev pub usdc_decimals : ℕ
usdc_decimals = 7

-- What is given as an amount of stroops: what `BigInt` reads of its text.
pub data Stroops : Type 0 where
  amount : ℕ → Stroops
  negative not_integer : Stroops

-- What is given as an amount of USDC: a text, or a number by its `String`.
pub data UsdcInput : Type 0 where
  text_amount finite_number : List ℕ → UsdcInput
  not_finite : UsdcInput

-- Why an amount is refused.
pub data UsdcError : Type 0 where
  no_number no_text below_zero bad_exponent not_decimal too_precise : UsdcError

pub data UsdcResult : Type 0 where
  stroops : ℕ → UsdcResult
  refused : UsdcError → UsdcResult
