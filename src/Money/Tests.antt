-- ===== src/Money/Tests.antt =====
-- Runs of the conversions on the examples of the source's comments.
use circleup.Prelude.{◌-◌, ◌%◌, ◌≡◌, refl}
use circleup.Prelude.Text.{codes}
use circleup.Money.{amount, text_amount, finite_number, stroops, refused, too_precise}
use circleup.Money.Usdc.Laws.{usdc_to_stroops-stroops_to_usdc}
use circleup.Money.Usdc.Display.{usdc_to_stroops-format_usdc}
use circleup.Money.Digits.{digits, pad_start}
use circleup.Money.Usdc.{strip_zeros, take_chars, usdc_to_stroops, stroops_to_usdc, format_usdc}

one_stroop : usdc_to_stroops (finite_number (codes "1e-7")) ≡ stroops 1
unfolding usdc_to_stroops
one_stroop = refl

with_zeros : usdc_to_stroops (text_amount (codes " 1.50000000 ")) ≡ stroops 15000000
unfolding usdc_to_stroops
with_zeros = refl

large : usdc_to_stroops (text_amount (codes "1.5e3")) ≡ stroops 15000000000
unfolding usdc_to_stroops
large = refl

eight_places : usdc_to_stroops (text_amount (codes "0.00000001")) ≡ refused too_precise
unfolding usdc_to_stroops
eight_places = refl

compact : stroops_to_usdc (amount 15000000) ≡ codes "1.5"
unfolding stroops_to_usdc strip_zeros digits pad_start
compact = refl

whole_amount : stroops_to_usdc (amount 1000000000) ≡ codes "100"
unfolding stroops_to_usdc strip_zeros digits pad_start
whole_amount = refl

truncated : format_usdc (amount 12349999) ≡ codes "1.23"
unfolding format_usdc digits take_chars pad_start
truncated = refl

usdc_to_stroops-stroops_to_usdc_example :
    usdc_to_stroops (text_amount (stroops_to_usdc (amount 12349999))) ≡ stroops 12349999
usdc_to_stroops-stroops_to_usdc_example = usdc_to_stroops-stroops_to_usdc 12349999

usdc_to_stroops-format_usdc_example :
    usdc_to_stroops (text_amount (format_usdc (amount 12349999)))
    ≡ stroops (12349999 - 12349999 % 100000)
usdc_to_stroops-format_usdc_example = usdc_to_stroops-format_usdc 12349999
