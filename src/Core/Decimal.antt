-- ===== src/Core/Decimal.antt =====
-- packages/core/src/decimal.ts: a decimal is a `bigint` coefficient and a scale. Scales are whole
-- numbers of digits.
pub mod Multiples
pub mod Rounding
pub mod Exact
pub mod Step
pub mod Text
use ztrade.Prelude.{
  ℕ, suc, ◌+◌, ◌-◌, ◌*◌, ◌/◌, ◌%◌, ◌^◌, Bool, true, false, not, ◌&&◌, Option, none, some, ltb, leb,
  ◌==◌, if◌then◌else◌,
}
use ztrade.Prelude.Int.{ℤ, pos, negsuc, nat_abs, ◌+ℤ◌, ◌-ℤ◌, ◌*ℤ◌, neg_ℤ, ltb_ℤ, leb_ℤ, ◌==ℤ◌}

pub data RoundingMode : Type 0 where
  down up floor ceil half_up half_even : RoundingMode

-- value = c * 10 ^ (-s)
pub record Decimal : Type 0 where
  pub c : ℤ
  pub s : ℕ

unfoldable pub of_bigint : ℤ → Decimal
of_bigint n = record { c = n; s = 0 }

unfoldable pub zero_decimal : Decimal
zero_decimal = record { c = pos 0; s = 0 }

abbrev pub max_scale : ℕ → ℕ → ℕ
max_scale a b = if ltb a b then b else a

-- The quotient of two `bigint`s is cut off toward zero.
unfoldable pub quot : ℤ → ℤ → ℤ
quot (pos a) (pos b) = pos (a / b)
quot (pos a) (negsuc b) = neg_ℤ (pos (a / suc b))
quot (negsuc a) (pos b) = neg_ℤ (pos (suc a / b))
quot (negsuc a) (negsuc b) = pos (suc a / suc b)

-- `c * 10n ** BigInt(k)`
unfoldable pub raise : ℤ → ℕ → ℤ
raise c k = c *ℤ pos (10 ^ k)

-- The two coefficients at the larger scale, and that scale.
unfoldable pub align : Decimal → Decimal → ℤ × ℤ × ℕ
align a b =
    let scale = max_scale a.s b.s in (raise a.c (scale - a.s), raise b.c (scale - b.s), scale)

unfoldable pub add : Decimal → Decimal → Decimal
unfolding align
add a b = let (ca, cb, scale) = align a b in record { c = ca +ℤ cb; s = scale }

unfoldable pub sub : Decimal → Decimal → Decimal
unfolding align
sub a b = let (ca, cb, scale) = align a b in record { c = ca -ℤ cb; s = scale }

unfoldable pub mul : Decimal → Decimal → Decimal
mul a b = record { c = a.c *ℤ b.c; s = a.s + b.s }

unfoldable pub neg : Decimal → Decimal
neg a = record { c = neg_ℤ a.c; s = a.s }

unfoldable pub abs : Decimal → Decimal
abs a = if ltb_ℤ a.c (pos 0) then record { c = neg_ℤ a.c; s = a.s } else a

abbrev pub away : Bool → ℤ
away negative = if negative then negsuc 0 else pos 1

abbrev is_even : ℤ → Bool
is_even q = nat_abs q % 2 == 0

-- The `switch` of `applyRounding`, where something was cut off.
abbrev round_cut : RoundingMode → ℤ → ℕ → ℕ → Bool → ℤ
round_cut down q rem2 d negative = q
round_cut up q rem2 d negative = q +ℤ away (ltb_ℤ q (pos 0))
round_cut floor q rem2 d negative = if negative then q -ℤ pos 1 else q
round_cut ceil q rem2 d negative = if negative then q else q +ℤ pos 1
round_cut half_up q rem2 d negative = if leb d rem2 then q +ℤ away negative else q
round_cut half_even q rem2 d negative =
    if ltb d rem2
    then q +ℤ away negative
    else if ltb rem2 d
    then q
    else if is_even q
    then q
    else q +ℤ away negative

-- The divisor is a positive number wherever the source calls it.
unfoldable pub apply_rounding : ℤ → ℤ → ℕ → Bool → RoundingMode → Bool → ℤ
apply_rounding q rem d negative mode extra_non_zero =
    if rem ==ℤ pos 0 && not extra_non_zero then q else round_cut mode q (nat_abs rem * 2) d negative

-- Dropping `k` digits of a coefficient.
unfoldable pub drop_digits : ℤ → ℕ → RoundingMode → Bool → ℤ
unfolding apply_rounding
drop_digits c k mode extra =
    let q = quot c (pos (10 ^ k)) in
    apply_rounding q (c -ℤ q *ℤ pos (10 ^ k)) (10 ^ k) (ltb_ℤ c (pos 0)) mode extra

unfoldable pub round_to_scale : ℕ → RoundingMode → Bool → Decimal → Decimal
unfolding drop_digits
round_to_scale scale mode extra a =
    if leb a.s scale
    then record { c = raise a.c (scale - a.s); s = scale }
    else record { c = drop_digits a.c (a.s - scale) mode extra; s = scale }

-- `none` is the exception of a division by zero. One guard digit is computed and then rounded.
unfoldable pub div : Decimal → ℕ → RoundingMode → Decimal → Option Decimal
unfolding round_to_scale
div other scale mode a =
    let guard = scale + 1 in
    let numerator = if leb a.s (guard + other.s) then raise a.c (guard + other.s - a.s) else a.c in
    let denominator = raise other.c (a.s - (guard + other.s)) in
    let quotient = quot numerator denominator in
    let rest = numerator -ℤ quotient *ℤ denominator in
    if other.c ==ℤ pos 0
    then none
    else some
        (round_to_scale scale mode (not (rest ==ℤ pos 0)) (record { c = quotient; s = guard }))

-- `none` is the exception "Step must be positive".
unfoldable pub round_to_step : Decimal → RoundingMode → Decimal → Option Decimal
unfolding align apply_rounding
round_to_step step mode a =
    let (ca, cb, scale) = align a step in
    let q = quot ca cb in
    let units = apply_rounding q (ca -ℤ q *ℤ cb) (nat_abs cb) (ltb_ℤ a.c (pos 0)) mode false in
    if leb_ℤ step.c (pos 0) then none else some (record { c = units *ℤ step.c; s = step.s })

-- -1, 0 and 1.
pub data Sign : Type 0 where
  minus nil plus : Sign

unfoldable pub compare : Decimal → Decimal → Sign
unfolding align
compare a b =
    let (ca, cb, scale) = align a b in
    if ltb_ℤ ca cb then minus else if ltb_ℤ cb ca then plus else nil

abbrev is_minus : Sign → Bool
is_minus minus = true
is_minus _ = false

abbrev is_plus : Sign → Bool
is_plus plus = true
is_plus _ = false

unfoldable pub lt : Decimal → Decimal → Bool
unfolding compare
lt a b = is_minus (compare a b)

unfoldable pub lte : Decimal → Decimal → Bool
unfolding compare
lte a b = not (is_plus (compare a b))

unfoldable pub gt : Decimal → Decimal → Bool
unfolding compare
gt a b = is_plus (compare a b)

unfoldable pub gte : Decimal → Decimal → Bool
unfolding compare
gte a b = not (is_minus (compare a b))

unfoldable pub eq : Decimal → Decimal → Bool
unfolding compare
eq a b = not (is_minus (compare a b)) && not (is_plus (compare a b))

unfoldable pub is_zero : Decimal → Bool
is_zero a = a.c ==ℤ pos 0

unfoldable pub sign : Decimal → Sign
sign a = if ltb_ℤ a.c (pos 0) then minus else if ltb_ℤ (pos 0) a.c then plus else nil

unfoldable pub min_decimal : Decimal → Decimal → Decimal
unfolding lte
min_decimal a b = if lte a b then a else b

unfoldable pub max_decimal : Decimal → Decimal → Decimal
unfolding gte
max_decimal a b = if gte a b then a else b
