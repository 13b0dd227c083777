-- ===== src/Core/Decimal/Text/Digits.antt =====
-- Digits, what they spell, and what cutting them does.
use ztrade.Prelude.{
  ℕ, zero, suc, ◌+◌, ◌-◌, ◌*◌, ◌/◌, ◌%◌, ◌^◌, ◌≤◌, ◌<◌, ◌≡◌, refl, ap, ◌∙◌, true, ◌&&◌, [], ◌∷◌,
  ◌++◌, arith, ◌==◌, length, take, length-append, drop,
}
use native.Mathlib.Nat.{pow-suc}
use ztrade.Prelude.Text.{Text}
use ztrade.Core.Decimal.Text.{
  drop_end, all_digits, value_from, digits_from, print_ℕ, zeros, pad_start,
}

pub value-append : (n : ℕ) (x y : Text) → value_from n (x ++ y) ≡ value_from (value_from n x) y
value-append n [] y = refl
value-append n (c ∷ x) y = value-append (n * 10 + (c - 48)) x y

shift : (n p : ℕ) → (n * 10 + 0) * p ≡ n * (p * 10)
shift n p = omega arith

pub value-zeros : (n k : ℕ) → value_from n (zeros k) ≡ n * 10 ^ k
value-zeros n zero = omega arith
value-zeros n (suc k) =
    rw (pow-suc 10 k) (omega (arith, value-zeros (n * 10 + 0) k, shift n (10 ^ k)))

value-digits_from :
    (fuel n : ℕ) (out : Text) → n < fuel → value_from 0 (digits_from fuel n out) ≡ value_from n out
value-digits_from zero n out h = absurd (omega arith)
value-digits_from (suc fuel) n out h =
    ground (arith, value-digits_from fuel (n / 10) ((48 + n % 10) ∷ out))

pub digits-digits_from :
    (fuel n : ℕ) (out : Text) → all_digits out ≡ true → all_digits (digits_from fuel n out) ≡ true
digits-digits_from zero n out h = h
digits-digits_from (suc fuel) n out h =
    ground (arith, digits-digits_from fuel (n / 10) ((48 + n % 10) ∷ out))

-- A number is the value of its digits: there is fuel enough.
pub value-print : (n : ℕ) → value_from 0 (print_ℕ n) ≡ n
value-print n = value-digits_from (suc n) n [] (omega arith)

pub digits-append : (x y : Text) → all_digits (x ++ y) ≡ (all_digits x && all_digits y)
digits-append [] y = refl
digits-append (c ∷ x) y = ground (arith, digits-append x y)

pub digits-zeros : (k : ℕ) → all_digits (zeros k) ≡ true
digits-zeros zero = refl
digits-zeros (suc k) = ground (arith, digits-zeros k)

length-zeros : (k : ℕ) → length (zeros k) ≡ k
length-zeros zero = refl
length-zeros (suc k) = ground (arith, length-zeros k)

pub take-drop : (k : ℕ) (x : Text) → take k x ++ drop k x ≡ x
take-drop zero x = refl
take-drop (suc k) [] = refl
take-drop (suc k) (c ∷ x) = ap (λ y. c ∷ y) (take-drop k x)

pub length-take : (k : ℕ) (x : Text) → k ≤ length x → length (take k x) ≡ k
length-take zero x h = refl
length-take (suc k) [] h = absurd (omega arith)
length-take (suc k) (c ∷ x) h = omega (arith, length-take k x (omega arith))

pub length-drop : (k : ℕ) (x : Text) → length (drop k x) ≡ length x - k
length-drop zero x = omega arith
length-drop (suc k) [] = omega arith
length-drop (suc k) (c ∷ x) = omega (arith, length-drop k x)

-- Padding adds zeros in front, up to the length.
pub value-pad : (k n : ℕ) → value_from 0 (pad_start k (print_ℕ n)) ≡ n
value-pad k n =
    value-append 0 (zeros (k - length (print_ℕ n))) (print_ℕ n)
    ∙ ap (λ m. value_from m (print_ℕ n)) (value-zeros 0 (k - length (print_ℕ n)) ∙ omega arith)
    ∙ value-print n

pub digits-pad : (k n : ℕ) → all_digits (pad_start k (print_ℕ n)) ≡ true
digits-pad k n = ground (
  arith,
  digits-append (zeros (k - length (print_ℕ n))) (print_ℕ n),
  digits-zeros (k - length (print_ℕ n)),
  digits-digits_from (suc n) n [] refl,
)

pub length-pad : (k : ℕ) (x : Text) → k ≤ length (pad_start k x)
length-pad k x = omega (arith, length-append (zeros (k - length x)) x, length-zeros (k - length x))

-- The zeros that are cut off, put back.
pub drop_end-zeros :
    (x : Text)
    → let kept = drop_end (λ c. c == 48) x in
      (kept ++ zeros (length x - length kept) ≡ x) × (length kept ≤ length x)
drop_end-zeros [] = (refl, omega arith)
drop_end-zeros (c ∷ x) = ground (arith, drop_end-zeros x)

pub print-digits : (n : ℕ) → all_digits (print_ℕ n) ≡ true
print-digits n = digits-digits_from (suc n) n [] refl

-- A number has a digit.
longer-digits_from :
    (fuel n : ℕ) (out : Text) → 0 < fuel → length out < length (digits_from fuel n out)
longer-digits_from zero n out h = absurd (omega arith)
longer-digits_from (suc zero) n out h = ground arith
longer-digits_from (suc (suc fuel)) n out h =
    ground (arith, longer-digits_from (suc fuel) (n / 10) ((48 + n % 10) ∷ out))

pub print-not_nil : (n : ℕ) → 0 < length (print_ℕ n)
print-not_nil n = longer-digits_from (suc n) n [] (omega arith)
