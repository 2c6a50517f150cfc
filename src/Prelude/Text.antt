-- ===== src/Prelude/Text.antt =====
-- Texts as the source uses them: code points, lower case and search in ASCII, joining, and the
-- decimal digits of a number.
use Prim.Native.Nat.{ℕ, zero, suc, ◌+◌, ◌/◌, ◌%◌}
use Prim.Native.Char.{code}
use Prim.Native.String
use Prim.Native.String.{String}
use mathlib.Core.Bool.{Bool, true, false, ◌&&◌, ◌||◌}
use mathlib.Core.List.{List, [], ◌∷◌, map}
use circleup.Prelude.Tests.{ltb, leb, ◌==◌, if◌then◌else◌}

abbrev pub codes : String → List ℕ
codes String.[] = []
codes (String.◌∷◌ c s) = code c ∷ codes s

-- `s.toLowerCase()` for ASCII texts.
abbrev pub to_lower : ℕ → ℕ
to_lower c = if leb b'A' c && leb c b'Z' then c + 32 else c

abbrev pub lower_codes : String → List ℕ
lower_codes s = map to_lower (codes s)

abbrev pub has_prefix : List ℕ → List ℕ → Bool
has_prefix [] text = true
has_prefix (c ∷ cs) [] = false
has_prefix (c ∷ cs) (d ∷ ds) = c == d && has_prefix cs ds

-- `text.includes(part)` on code points.
unfoldable pub includes_text : List ℕ → List ℕ → Bool
includes_text part [] = has_prefix part []
includes_text part (c ∷ cs) = has_prefix part (c ∷ cs) || includes_text part cs

-- `parts.join(separator)`
unfoldable pub join : String → List String → String
join separator [] = ""
join separator (part ∷ []) = part
join separator (part ∷ parts) = String.◌++◌ part (String.◌++◌ separator (join separator parts))

abbrev digit : ℕ → String
digit d =
    if d == 0
    then "0"
    else if d == 1
    then "1"
    else if d == 2
    then "2"
    else if d == 3
    then "3"
    else if d == 4
    then "4"
    else if d == 5
    then "5"
    else if d == 6
    then "6"
    else if d == 7
    then "7"
    else if d == 8
    then "8"
    else "9"

-- On fuel; a number has fewer digits than `suc n`.
decimal_from : ℕ → ℕ → String → String
decimal_from zero n after = after
decimal_from (suc fuel) n after =
    let rest = decimal_from fuel (n / 10) (String.◌++◌ (digit (n % 10)) after) in
    if ltb n 10 then String.◌++◌ (digit n) after else rest

-- `String(n)`
unfoldable pub decimal : ℕ → String
unfolding decimal_from
decimal n = decimal_from (suc n) n ""
