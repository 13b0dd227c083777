-- ===== src/Tests/Amounts.antt =====
-- Decimals and money, on small data.
use ztrade.Prelude.{◌≡◌, refl, some, arith, codes}
use ztrade.Prelude.Int.{pos, negsuc, neg_ℤ, ◌+ℤ◌, ◌-ℤ◌, ◌*ℤ◌, ℤ, nat_abs}
use ztrade.Core.Decimal.Text.{to_text, from_text}
use ztrade.Core.Decimal.Text.RoundTrip.{ReadsAs, from_text-to_text}
use ztrade.Core.Decimal.{down, up, Decimal, max_scale, raise, round_to_step, quot, apply_rounding}
use ztrade.Core.Decimal.Rounding.{rounded, IsRounded, up_of_small_negative}
use ztrade.Core.Decimal.Step.{coefficient_at, round_to_step-IsRounded}

-- 1.2345, in steps of 0.010.
abbrev size : Decimal
size = record { c = pos 12345; s = 4 }

abbrev step : Decimal
step = record { c = pos 10; s = 3 }

abbrev debt : Decimal
debt = record { c = negsuc 24; s = 1 }

-- Cut down to 1.230.
size_cut : round_to_step step down size ≡ some (record { c = pos 1230; s = 3 })
unfolding round_to_step apply_rounding quot ◌*ℤ◌ ◌-ℤ◌ ◌+ℤ◌ raise
size_cut = refl

round_to_step-IsRounded_example :
    let scale = max_scale (size.s) (step.s) in
    (r : Decimal) × (round_to_step step down size ≡ some r)
    × (r.s ≡ step.s)
    × ((units : ℤ) × (r.c ≡ units *ℤ step.c))
    × IsRounded down
        (coefficient_at scale size)
        (nat_abs (coefficient_at scale step))
        (coefficient_at scale r)
round_to_step-IsRounded_example = round_to_step-IsRounded step down size (omega arith)

up_of_small_negative_example : rounded up (negsuc 2) 10 ≡ pos 1
up_of_small_negative_example = up_of_small_negative 2 10 (omega arith)

abbrev small : Decimal
small = record { c = negsuc 1249; s = 5 }

from_text-to_text_example : ReadsAs (to_text small) small
from_text-to_text_example = from_text-to_text small

-- It is printed without the zero at the end, and read with one digit less.
printed_small :
    (to_text small ≡ codes "-0.0125")
    × (from_text (codes " -0.0125 ") ≡ some (record { c = negsuc 124; s = 4 }))
unfolding to_text from_text neg_ℤ
printed_small = (refl, refl)
