-- ===== src/Core/Decimal/Step.antt =====
-- Rounding to a step: the operation that decides order sizes.
use ztrade.Prelude.{
  ℕ, zero, suc, ◌-◌, ◌*◌, ◌^◌, ◌<◌, ◌≡◌, refl, sym, ap, Bool, false, Option, some, arith,
}
use native.Mathlib.Nat.{pow-suc}
use ztrade.Prelude.Int.{
  ℤ, pos, negsuc, pos_part, neg_part, nat_abs, ◌-ℤ◌, ◌*ℤ◌, ltb_ℤ, leb_ℤ, ◌<ℤ◌, *ℤ_parts,
  eq_of_parts,
}
use ztrade.Core.Decimal.{
  RoundingMode, Decimal, quot, apply_rounding, raise, max_scale, round_to_step,
}
use ztrade.Core.Decimal.Multiples.{pos_mul}
use ztrade.Core.Decimal.Rounding.{rounded, IsRounded, rounded-IsRounded}

pub pow_pos : (k : ℕ) → 0 < 10 ^ k
pow_pos zero = omega arith
pow_pos (suc k) = rw (pow-suc 10 k) (omega (arith, pow_pos k))

pub mul_assoc : (a b : ℤ) (d : ℕ) → a *ℤ b *ℤ pos d ≡ a *ℤ (b *ℤ pos d)
mul_assoc a b d = eq_of_parts _ _ (
    omega (
      arith,
      *ℤ_parts (a *ℤ b) (pos d),
      ap (λ (t : ℕ). t * d) (*ℤ_parts a b),
      *ℤ_parts a (b *ℤ pos d),
      ap (λ (t : ℕ). pos_part a * t) (*ℤ_parts b (pos d)),
      ap (λ (t : ℕ). neg_part a * t) (*ℤ_parts b (pos d)),
    ))

-- A power of ten keeps the sign.
raise_sign : (c : ℤ) (k : ℕ) → ltb_ℤ (raise c k) (pos 0) ≡ ltb_ℤ c (pos 0)
unfolding raise ◌*ℤ◌
raise_sign (pos n) k = ground (arith, pow_pos k)
raise_sign (negsuc n) k = grind (arith, pow_pos k)

product_pos : (n m : ℕ) → 0 < n → 0 < m → 0 < n * m
product_pos n m h k = grind arith

raise_pos :
    (c : ℤ) (k : ℕ)
    → pos 0 <ℤ c
    → (raise c k ≡ pos (nat_abs (raise c k))) × (0 < nat_abs (raise c k))
unfolding raise
raise_pos (pos n) k h =
    rw (pos_mul n (10 ^ k)) (refl, product_pos n (10 ^ k) (omega arith) (pow_pos k))
raise_pos (negsuc n) k h = absurd (omega arith)

-- The coefficient that a decimal has at a scale no smaller than its own.
abbrev pub coefficient_at : ℕ → Decimal → ℤ
coefficient_at scale a = raise a.c (scale - a.s)

not_positive : (c : ℤ) → pos 0 <ℤ c → leb_ℤ c (pos 0) ≡ false
not_positive c h = ground arith

same_units :
    (mode : RoundingMode) (ca cb : ℤ) (negative : Bool)
    → cb ≡ pos (nat_abs cb)
    → ltb_ℤ ca (pos 0) ≡ negative
    → apply_rounding (quot ca cb) (ca -ℤ quot ca cb *ℤ cb) (nat_abs cb) negative mode false
      ≡ rounded mode ca (nat_abs cb)
same_units mode ca (pos d) negative e h =
    ap (λ b. apply_rounding (quot ca (pos d)) (ca -ℤ quot ca (pos d) *ℤ pos d) d b mode false)
      (sym h)
same_units mode ca (negsuc d) negative e h = cc

step_units :
    (step : Decimal) (mode : RoundingMode) (a : Decimal)
    → pos 0 <ℤ step.c
    → let scale = max_scale a.s step.s in
      round_to_step step mode a
      ≡ some (record {
        c = rounded mode (coefficient_at scale a) (nat_abs (coefficient_at scale step)) *ℤ step.c;
        s = step.s;
      })
unfolding round_to_step
step_units step mode a h =
    let scale = max_scale a.s step.s in
    rw (not_positive step.c h) (
      ap {B = Option Decimal} (λ u. some (record { c = u *ℤ step.c; s = step.s }))
        (same_units mode (coefficient_at scale a) (coefficient_at scale step) _
          (raise_pos step.c (scale - step.s) h).0 (raise_sign a.c (scale - a.s))))

-- For every decimal, every positive step and every mode, rounding to the step succeeds; the result
-- has the scale of the step, its coefficient is a whole multiple of the step's, and at the common
-- scale it stands to the value as the mode promises, but that UP takes a negative value smaller than
-- the step to one step above zero; HALF_EVEN takes the even one of two neighbours at a tie.
pub round_to_step-IsRounded :
    (step : Decimal) (mode : RoundingMode) (a : Decimal)
    → pos 0 <ℤ step.c
    → let scale = max_scale a.s step.s in
      (r : Decimal) × (round_to_step step mode a ≡ some r)
      × (r.s ≡ step.s)
      × ((units : ℤ) × (r.c ≡ units *ℤ step.c))
      × IsRounded mode
          (coefficient_at scale a)
          (nat_abs (coefficient_at scale step))
          (coefficient_at scale r)
unfolding raise
round_to_step-IsRounded step mode a h =
    let scale = max_scale a.s step.s in
    let ca = coefficient_at scale a in
    let (positive, big) = raise_pos step.c (scale - step.s) h in
    let units = rounded mode ca (nat_abs (coefficient_at scale step)) in
    (
      record { c = units *ℤ step.c; s = step.s },
      step_units step mode a h,
      refl,
      (units, refl),
      rw (mul_assoc units step.c (10 ^ (scale - step.s)))
          (rw positive (rounded-IsRounded mode ca (nat_abs (coefficient_at scale step)) big)),
    )
