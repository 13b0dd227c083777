-- ===== src/Core/Decimal/Text.antt =====
-- packages/core/src/decimal.ts: texts of decimals, as code points. `print` is `Number.toString` and
-- `number_of` is `Number(text)`; a `bigint` is printed digit by digit, with fuel beyond its value.
pub mod Digits
pub mod RoundTrip
use ztrade.Prelude.{
  ℕ, zero, suc, ◌+◌, ◌-◌, ◌*◌, ◌/◌, ◌%◌, Bool, true, false, not, ◌&&◌, ◌||◌, Option, none, some, [],
  ◌∷◌, ◌++◌, leb, ◌==◌, if◌then◌else◌, length, take, drop,
}
use ztrade.Prelude.Int.{ℤ, pos, nat_abs, neg_ℤ, ltb_ℤ}
use ztrade.Prelude.Text.{Text}
use ztrade.Prelude.Double.{Double}
use ztrade.Core.Decimal.{Decimal, round_to_scale, half_up}

abbrev pub is_digit : ℕ → Bool
is_digit c = leb 48 c && leb c 57

-- What `trim` takes away.
abbrev pub is_space : ℕ → Bool
is_space c =
    (leb 9 c && leb c 13)
    || c == 32
    || c == 160
    || c == 5760
    || (leb 8192 c && leb c 8202)
    || c == 8232
    || c == 8233
    || c == 8239
    || c == 8287
    || c == 12288
    || c == 65279

abbrev is_nil : Text → Bool
is_nil [] = true
is_nil (c ∷ text) = false

-- Without the longest ending of characters that pass the test.
abbrev pub drop_end : (ℕ → Bool) → Text → Text
drop_end test [] = []
drop_end test (c ∷ text) =
    let rest = drop_end test text in if is_nil rest && test c then [] else c ∷ rest

abbrev pub drop_start : (ℕ → Bool) → Text → Text
drop_start test [] = []
drop_start test (c ∷ text) = if test c then drop_start test text else c ∷ text

abbrev pub trim : Text → Text
trim text = drop_end is_space (drop_start is_space text)

abbrev pub all_digits : Text → Bool
all_digits [] = true
all_digits (c ∷ text) = is_digit c && all_digits text

-- `\d+`
abbrev pub digits_plus : Text → Bool
digits_plus text = not (is_nil text) && all_digits text

-- What stands before the first dot and what stands after it, if there is one.
abbrev pub split_dot : Text → Text × Option Text
split_dot [] = ([], none)
split_dot (c ∷ text) =
    let rest = split_dot text in if c == 46 then ([], some text) else (c ∷ rest.0, rest.1)

abbrev pub cut_minus : Text → Bool × Text
cut_minus [] = (false, [])
cut_minus (c ∷ text) = if c == 45 then (true, text) else (false, c ∷ text)

-- `BigInt(n digits)`, behind the digits that were read.
abbrev pub value_from : ℕ → Text → ℕ
value_from n [] = n
value_from n (c ∷ text) = value_from (n * 10 + (c - 48)) text

abbrev pub signed : Bool → ℕ → ℤ
signed negative n = if negative then neg_ℤ (pos n) else pos n

-- The test `^-?\d+(\.\d+)?$` on what follows the sign, and the parts.
abbrev pub read_parts : Bool → Text × Option Text → Option Decimal
read_parts negative (int, none) =
    if digits_plus int
    then some (record { c = signed negative (value_from 0 int); s = 0 })
    else none
read_parts negative (int, some frac) =
    if digits_plus int && digits_plus frac
    then some (record { c = signed negative (value_from 0 (int ++ frac)); s = length frac })
    else none

-- `none` where it throws.
unfoldable pub from_text : Text → Option Decimal
from_text input =
    let (negative, body) = cut_minus (trim input) in read_parts negative (split_dot body)

unfoldable pub from_number : {F : Type 0} → ⦃d : Double F⦄ → (F → Text) → F → Option Decimal
from_number ⦃d⦄ print n = if d.is_finite n then from_text (print n) else none

-- The digits of `n` before `out`.
abbrev pub digits_from : ℕ → ℕ → Text → Text
digits_from zero n out = out
digits_from (suc fuel) n out =
    let rest = digits_from fuel (n / 10) ((48 + n % 10) ∷ out) in
    if n / 10 == 0 then (48 + n % 10) ∷ out else rest

abbrev pub print_ℕ : ℕ → Text
print_ℕ n = digits_from (suc n) n []

abbrev pub zeros : ℕ → Text
zeros zero = []
zeros (suc k) = 48 ∷ zeros k

abbrev pub pad_start : ℕ → Text → Text
pad_start n text = zeros (n - length text) ++ text

abbrev pub with_sign : Bool → Text → Text
with_sign negative text = if negative then 45 ∷ text else text

-- The point and what follows it, if anything does.
abbrev pub fraction : Text → Text
fraction [] = []
fraction (c ∷ text) = 46 ∷ c ∷ text

abbrev pub body_text : ℕ → ℕ → Text
body_text n s =
    let padded = pad_start (s + 1) (print_ℕ n) in
    let at = length padded - s in
    take at padded ++ fraction (drop_end (λ c. c == 48) (drop at padded))

unfoldable pub to_text : Decimal → Text
to_text d =
    let negative = ltb_ℤ d.c (pos 0) in
    if d.s == 0
    then with_sign negative (print_ℕ (nat_abs d.c))
    else with_sign negative (body_text (nat_abs d.c) d.s)

unfoldable pub to_fixed : ℕ → Decimal → Text
to_fixed dp d =
    let rounded = round_to_scale dp half_up false d in
    let negative = ltb_ℤ rounded.c (pos 0) in
    let padded = pad_start (dp + 1) (print_ℕ (nat_abs rounded.c)) in
    let at = length padded - dp in
    if dp == 0
    then with_sign negative (print_ℕ (nat_abs rounded.c))
    else with_sign negative (take at padded ++ (46 ∷ drop at padded))

unfoldable pub to_number : {F : Type 0} → (Text → F) → Decimal → F
to_number number_of d = number_of (to_text d)
