-- ===== src/Core/Decimal/Exact.antt =====
-- Sums, differences and products are exact.
use ztrade.Prelude.{ℕ, zero, suc, ◌+◌, ◌-◌, ◌*◌, ◌^◌, ◌≤◌, ◌≡◌, sym, ap, ◌∙◌, arith}
use native.Mathlib.Nat.{pow-suc}
use ztrade.Prelude.Int.{ℤ, pos, ◌+ℤ◌, ◌-ℤ◌, ◌*ℤ◌}
use ztrade.Core.Decimal.{Decimal, raise, max_scale, add, sub}
use ztrade.Core.Decimal.Multiples.{add_mul, sub_mul, pos_mul}
use ztrade.Core.Decimal.Step.{mul_assoc, coefficient_at}

pow-add : (j k : ℕ) → 10 ^ (j + k) ≡ 10 ^ j * 10 ^ k
pow-add zero k = let e : 0 + k ≡ k = omega arith in rw e (omega arith)
pow-add (suc j) k =
    let e : suc j + k ≡ suc (j + k) = omega arith in
    rw (e, pow-suc 10 (j + k), pow-suc 10 j) (omega (arith, ap (λ (t : ℕ). 10 * t) (pow-add j k)))

raise-raise : (c : ℤ) (j k : ℕ) → raise (raise c j) k ≡ raise c (j + k)
unfolding raise
raise-raise c j k =
    mul_assoc c (pos (10 ^ j)) (10 ^ k)
    ∙ ap (λ p. c *ℤ p) (pos_mul (10 ^ j) (10 ^ k) ∙ ap pos (sym (pow-add j k)))

raise-add : (x y : ℤ) (k : ℕ) → raise (x +ℤ y) k ≡ raise x k +ℤ raise y k
unfolding raise
raise-add x y k = add_mul x y (10 ^ k)

raise-sub : (x y : ℤ) (k : ℕ) → raise (x -ℤ y) k ≡ raise x k -ℤ raise y k
unfolding raise
raise-sub x y k = sub_mul x y (10 ^ k)

-- A sum and a difference have, at every scale that is fine enough for both operands, the sum and
-- the difference of the operands' coefficients: no digit is lost.
pub add_exact :
    (a b : Decimal) (scale : ℕ)
    → a.s ≤ scale
    → b.s ≤ scale
    → (coefficient_at scale (add a b) ≡ coefficient_at scale a +ℤ coefficient_at scale b)
      × (coefficient_at scale (sub a b) ≡ coefficient_at scale a -ℤ coefficient_at scale b)
unfolding add sub
add_exact a b scale h k =
    let m = max_scale a.s b.s in
    let ra : raise (raise a.c (m - a.s)) (scale - m) ≡ raise a.c (scale - a.s) =
      raise-raise a.c (m - a.s) (scale - m) ∙ ap (raise a.c) (ground arith) in
    let rb : raise (raise b.c (m - b.s)) (scale - m) ≡ raise b.c (scale - b.s) =
      raise-raise b.c (m - b.s) (scale - m) ∙ ap (raise b.c) (ground arith) in
    (
      raise-add (raise a.c (m - a.s)) (raise b.c (m - b.s)) (scale - m) ∙ rw (ra, rb),
      raise-sub (raise a.c (m - a.s)) (raise b.c (m - b.s)) (scale - m) ∙ rw (ra, rb),
    )
