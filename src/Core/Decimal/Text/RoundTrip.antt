-- ===== src/Core/Decimal/Text/RoundTrip.antt =====
-- What is read from the text of a decimal.
use ztrade.Prelude.{
  ℕ, ◌+◌, ◌-◌, ◌*◌, ◌^◌, ◌≤◌, ◌<◌, ◌≡◌, refl, sym, ap, ◌∙◌, inl, inr, Bool, true, false, ◌&&◌, ◌||◌,
  none, some, [], ◌∷◌, ◌++◌, arith, ◌==◌, Bool-cases, length, take, drop,
}
use mathlib.Core.Path.{subst}
use mathlib.Core.List.{append-nil}
use ztrade.Prelude.Int.{ℤ, pos, negsuc, nat_abs, neg_ℤ, ltb_ℤ, ◌*ℤ◌}
use ztrade.Prelude.Text.{Text}
use ztrade.Core.Decimal.{Decimal, raise}
use ztrade.Core.Decimal.Text.Digits.{
  value-append, value-zeros, value-print, digits-append, take-drop, length-take, length-drop,
  value-pad, digits-pad, length-pad, drop_end-zeros, print-digits, print-not_nil,
}
use ztrade.Core.Decimal.Text.{
  is_digit, is_space, drop_end, trim, all_digits, digits_plus, split_dot, cut_minus, value_from,
  signed, read_parts, from_text, print_ℕ, zeros, pad_start, with_sign, fraction, body_text, to_text,
}

-- The characters of a printed decimal.
abbrev is_plain : ℕ → Bool
is_plain c = is_digit c || c == 46 || c == 45

abbrev all_plain : Text → Bool
all_plain [] = true
all_plain (c ∷ text) = is_plain c && all_plain text

plain-no_space : (c : ℕ) → is_plain c ≡ true → is_space c ≡ false
plain-no_space c h = ground arith

drop_end-plain : (x : Text) → all_plain x ≡ true → drop_end is_space x ≡ x
drop_end-plain [] h = refl
drop_end-plain (c ∷ x) h = ground (arith, drop_end-plain x, plain-no_space c)

trim-plain : (x : Text) → all_plain x ≡ true → trim x ≡ x
trim-plain [] h = refl
trim-plain (c ∷ x) h = ground (arith, drop_end-plain (c ∷ x), plain-no_space c)

plain-append : (x y : Text) → all_plain (x ++ y) ≡ (all_plain x && all_plain y)
plain-append [] y = refl
plain-append (c ∷ x) y = ground (arith, plain-append x y)

plain-digits : (x : Text) → all_digits x ≡ true → all_plain x ≡ true
plain-digits [] h = refl
plain-digits (c ∷ x) h = ground (arith, plain-digits x)

split-digits : (x : Text) → all_digits x ≡ true → split_dot x ≡ (x, none)
split-digits [] h = refl
split-digits (c ∷ x) h = ground (arith, split-digits x)

split-point : (x y : Text) → all_digits x ≡ true → split_dot (x ++ (46 ∷ y)) ≡ (x, some y)
split-point [] y h = refl
split-point (c ∷ x) y h = ground (arith, split-point x y)

abbrev decimal : Bool → Text → Text → Decimal
decimal negative int frac = record {
  c = signed negative (value_from 0 (int ++ frac));
  s = length frac;
}

-- Digits with a fraction after them, or with none, are read part by part.
read-body :
    (negative : Bool) (int frac : Text)
    → digits_plus int ≡ true
    → all_digits frac ≡ true
    → read_parts negative (split_dot (int ++ fraction frac)) ≡ some (decimal negative int frac)
read-body negative int [] h k = rw (append-nil int, split-digits int (ground arith)) (ground arith)
read-body negative int (c ∷ frac) h k =
    rw (split-point int (c ∷ frac) (ground arith)) (ground arith)

cut-digits :
    (negative : Bool) (int y : Text)
    → digits_plus int ≡ true
    → cut_minus (with_sign negative (int ++ y)) ≡ (negative, int ++ y)
cut-digits negative [] y h = absurd (ground arith)
cut-digits false (c ∷ int) y h = ground arith
cut-digits true (c ∷ int) y h = refl

plain-fraction : (frac : Text) → all_digits frac ≡ true → all_plain (fraction frac) ≡ true
plain-fraction [] h = refl
plain-fraction (c ∷ frac) h = ground (arith, plain-digits (c ∷ frac))

plain-signed :
    (negative : Bool) (x : Text) → all_plain x ≡ true → all_plain (with_sign negative x) ≡ true
plain-signed false x h = h
plain-signed true x h = ground arith

from_text-signed :
    (negative : Bool) (int frac : Text)
    → digits_plus int ≡ true
    → all_digits frac ≡ true
    → from_text (with_sign negative (int ++ fraction frac)) ≡ some (decimal negative int frac)
unfolding from_text
from_text-signed negative int frac h k =
    let plain : all_plain (with_sign negative (int ++ fraction frac)) ≡ true =
      plain-signed negative (int ++ fraction frac) (
        ground
          (arith, plain-append int (fraction frac), plain-digits int, plain-fraction frac k)) in
    rw
      (
        trim-plain (with_sign negative (int ++ fraction frac)) plain,
        cut-digits negative int (fraction frac) h,
      )
      (read-body negative int frac h k)

digits_plus-long : (x : Text) → all_digits x ≡ true → 0 < length x → digits_plus x ≡ true
digits_plus-long [] h k = absurd (omega arith)
digits_plus-long (c ∷ x) h k = ground arith

-- What is cut off the end of the fraction is a power of ten of the coefficient.
value-kept :
    (int frac : Text)
    → let kept = drop_end (λ c. c == 48) frac in
      value_from 0 (int ++ kept) * 10 ^ (length frac - length kept) ≡ value_from 0 (int ++ frac)
value-kept int frac =
    let kept = drop_end (λ c. c == 48) frac in
    let k = length frac - length kept in
    sym (value-zeros (value_from 0 (int ++ kept)) k)
    ∙ ap (λ n. value_from n (zeros k)) (value-append 0 int kept)
    ∙ sym (value-append (value_from 0 int) kept (zeros k))
    ∙ ap (value_from (value_from 0 int)) (drop_end-zeros frac).0
    ∙ sym (value-append 0 int frac)

raise-signed :
    (negative : Bool) (n k : ℕ) → raise (signed negative n) k ≡ signed negative (n * 10 ^ k)
unfolding raise neg_ℤ ◌*ℤ◌
raise-signed negative n k = ground arith

signed_lem : (c : ℤ) → signed (ltb_ℤ c (pos 0)) (nat_abs c) ≡ c
unfolding neg_ℤ
signed_lem (pos n) = ground arith
signed_lem (negsuc n) = ground arith

-- What reading gives back for the decimal `d`.
abbrev pub ReadsAs : Text → Decimal → Type 0
ReadsAs text d =
    (e : Decimal) × (from_text text ≡ some e) × (e.s ≤ d.s) × (raise e.c (d.s - e.s) ≡ d.c)

body-ReadsAs :
    (negative : Bool) (n s : ℕ)
    → ReadsAs (with_sign negative (body_text n s)) (record { c = signed negative n; s = s })
body-ReadsAs negative n s =
    let padded = pad_start (s + 1) (print_ℕ n) in
    let at = length padded - s in
    let int = take at padded in
    let frac = drop at padded in
    let kept = drop_end (λ c. c == 48) frac in
    let long : s + 1 ≤ length padded = length-pad (s + 1) (print_ℕ n) in
    let both : (all_digits int && all_digits frac) ≡ true =
      sym (digits-append int frac) ∙ ap all_digits (take-drop at padded) ∙ digits-pad (s + 1) n in
    let some_int : digits_plus int ≡ true =
      digits_plus-long int (ground (arith, both))
        (omega (arith, length-take at padded (omega arith), long)) in
    let zeros_back = drop_end-zeros frac in
    let digits_kept : all_digits kept ≡ true = ground (
      arith,
      both,
      digits-append kept (zeros (length frac - length kept)),
      ap all_digits zeros_back.0,
    ) in
    let frac_long : length frac ≡ s = length-drop at padded ∙ omega (arith, long) in
    let same : value_from 0 (int ++ kept) * 10 ^ (s - length kept) ≡ n =
      ap (λ m. value_from 0 (int ++ kept) * 10 ^ (m - length kept)) (sym frac_long)
      ∙ value-kept int frac
      ∙ ap (value_from 0) (take-drop at padded)
      ∙ value-pad (s + 1) n in
    (
      decimal negative int kept,
      from_text-signed negative int kept some_int digits_kept,
      omega (arith, zeros_back.1, frac_long),
      raise-signed negative (value_from 0 (int ++ kept)) (s - length kept)
          ∙ ap (signed negative) same,
    )

whole-ReadsAs :
    (negative : Bool) (n s : ℕ)
    → s ≡ 0
    → ReadsAs (with_sign negative (print_ℕ n)) (record { c = signed negative n; s = s })
whole-ReadsAs negative n s h =
    let text = print_ℕ n in
    let some_digits = digits_plus-long text (print-digits n) (print-not_nil n) in
    let none_cut : s - 0 ≡ 0 = omega (arith, h) in
    (
      record { c = signed negative n; s = 0 },
      ap (λ x. from_text (with_sign negative x)) (sym (append-nil text))
          ∙ from_text-signed negative text [] some_digits refl
          ∙ ap (λ (m : ℕ). some (record { c = signed negative m; s = 0 }))
              (ap (value_from 0) (append-nil text) ∙ value-print n),
      omega arith,
      rw none_cut (raise-signed negative n 0 ∙ ap (signed negative) (omega arith)),
    )

-- The text of a decimal is read back as the same value, whatever its sign and scale: the reader takes
-- it, at a scale that is no finer, and at the old scale the coefficient is the old one, so nothing but
-- zeros at the end is lost.
pub from_text-to_text : (d : Decimal) → ReadsAs (to_text d) d
unfolding to_text
from_text-to_text d =
    let negative = ltb_ℤ d.c (pos 0) in
    let n = nat_abs d.c in
    subst (ReadsAs (to_text d)) (ap (λ (c : ℤ). record { c = c; s = d.s }) (signed_lem d.c))
      (elim (Bool-cases (d.s == 0)) [
        | inl whole ↦ rw whole (whole-ReadsAs negative n d.s (ground arith))
        | inr scaled ↦ rw scaled (body-ReadsAs negative n d.s)
      ])
