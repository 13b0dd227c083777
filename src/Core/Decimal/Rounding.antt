-- ===== src/Core/Decimal/Rounding.antt =====
-- What each rounding mode does with a quotient by a positive divisor.
use ztrade.Prelude.{
  ℕ, suc, ◌*◌, ◌/◌, ◌%◌, ◌<◌, ◌≡◌, ap, ◌∙◌, ◌⊎◌, inl, inr, false, arith, ◌==◌, Bool-cases,
}
use ztrade.Prelude.Int.{
  ℤ, pos, negsuc, ◌+ℤ◌, ◌-ℤ◌, ◌*ℤ◌, neg_ℤ, nat_abs, ltb_ℤ, ◌≤ℤ◌, ◌<ℤ◌, +ℤ_parts, -ℤ_parts,
  neg_parts,
}
use ztrade.Core.Decimal.Multiples.{
  cut, neg_mul, pos_mul, suc_mul, pred_mul, twice_parts, pred-eq, mul_sign, halves,
}
use ztrade.Core.Decimal.{
  RoundingMode, down, up, floor, ceil, half_up, half_even, quot, apply_rounding,
}

-- Rounding `c / d` as the program does it.
abbrev pub rounded : RoundingMode → ℤ → ℕ → ℤ
rounded mode c d =
    apply_rounding (quot c (pos d)) (c -ℤ quot c (pos d) *ℤ pos d) d (ltb_ℤ c (pos 0)) mode false

-- An even multiple of the divisor.
abbrev IsEven : ℤ → ℕ → Type 0
IsEven p d = (k : ℤ) × (p ≡ (k +ℤ k) *ℤ pos d)

-- What each mode promises of the rounded multiple `p` of the divisor: `down` is the nearest multiple
-- toward zero, `floor` and `ceil` the nearest below and above, and `half_up` one within half a
-- divisor, the one away from zero at a tie, and `half_even` one within half a divisor, the even
-- one at a tie. `up` is the
-- nearest away from zero, but for a negative coefficient smaller than the divisor, where it is the
-- divisor itself.
abbrev pub IsRounded : RoundingMode → ℤ → ℕ → ℤ → Type 0
IsRounded down c d p =
    (pos 0 ≤ℤ c → (p ≤ℤ c) × (c <ℤ p +ℤ pos d) × (pos 0 ≤ℤ p))
    × (c <ℤ pos 0 → (c ≤ℤ p) × (p <ℤ c +ℤ pos d) × (p ≤ℤ pos 0))
IsRounded floor c d p = (p ≤ℤ c) × (c <ℤ p +ℤ pos d)
IsRounded ceil c d p = (c ≤ℤ p) × (p <ℤ c +ℤ pos d)
IsRounded half_up c d p =
    (pos 0 ≤ℤ c → (p +ℤ p ≤ℤ c +ℤ c +ℤ pos d) × (c +ℤ c <ℤ p +ℤ p +ℤ pos d))
    × (c <ℤ pos 0 → (p +ℤ p <ℤ c +ℤ c +ℤ pos d) × (c +ℤ c ≤ℤ p +ℤ p +ℤ pos d))
IsRounded half_even c d p =
    (p +ℤ p ≤ℤ c +ℤ c +ℤ pos d)
    × (c +ℤ c ≤ℤ p +ℤ p +ℤ pos d)
    × ((p +ℤ p ≡ c +ℤ c +ℤ pos d) ⊎ (c +ℤ c ≡ p +ℤ p +ℤ pos d) → IsEven p d)
IsRounded up c d p =
    (pos 0 ≤ℤ c → (c ≤ℤ p) × (p <ℤ c +ℤ pos d))
    × (c +ℤ pos d ≤ℤ pos 0 → (p ≤ℤ c) × (c <ℤ p +ℤ pos d))
    × (c <ℤ pos 0 → pos 0 <ℤ c +ℤ pos d → p ≡ pos d)

-- What cutting off toward zero leaves: `p` is the quotient times the divisor.
abbrev IsCut : ℤ → ℕ → ℤ → Type 0
IsCut c d p =
    (pos 0 ≤ℤ c → (p ≤ℤ c) × (c <ℤ p +ℤ pos d) × (pos 0 ≤ℤ p))
    × (c <ℤ pos 0 → (c ≤ℤ p) × (p <ℤ c +ℤ pos d) × (p ≤ℤ pos 0))

quot-IsCut : (c : ℤ) (d : ℕ) → 0 < d → IsCut c d (quot c (pos d) *ℤ pos d)
unfolding quot
quot-IsCut (pos n) d h = rw (pos_mul (n / d) d) (
  λ k. (
    omega (arith, cut n d h),
    omega (arith, cut n d h, +ℤ_parts (pos (n / d * d)) (pos d)),
    omega arith,
  ),
  λ k. absurd (omega arith),
)
quot-IsCut (negsuc n) d h = rw (neg_mul (suc n / d) d) (
  λ k. absurd (omega arith),
  λ k. (
    omega (arith, cut (suc n) d h, neg_parts (pos (suc n / d * d))),
    omega (arith, cut (suc n) d h, +ℤ_parts (negsuc n) (pos d), neg_parts (pos (suc n / d * d))),
    omega (arith, neg_parts (pos (suc n / d * d))),
  ),
)

-- The neighbours among the multiples that rounding chooses from.
abbrev Beside : ℤ → ℤ → ℕ → ℤ → Type 0
Beside c x d p = (p ≡ x) ⊎ (((p ≡ x +ℤ pos d) × (pos 0 ≤ℤ c)) ⊎ ((p ≡ x -ℤ pos d) × (c <ℤ pos 0)))

-- At a tie what is cut off is half the divisor.
tie_half :
    (c x p : ℤ) (d : ℕ)
    → IsCut c d x
    → Beside c x d p
    → (p +ℤ p ≡ c +ℤ c +ℤ pos d) ⊎ (c +ℤ c ≡ p +ℤ p +ℤ pos d)
    → nat_abs (c -ℤ x) * 2 ≡ d
tie_half c x p d is_cut beside tie = ground (
  arith,
  -ℤ_parts c x,
  +ℤ_parts x (pos d),
  -ℤ_parts x (pos d),
  +ℤ_parts c (pos d),
  twice_parts c d,
  twice_parts p d,
  is_cut,
  beside,
  tie,
)

module _ (c q : ℤ) (d : ℕ) (h : 0 < d) (is_cut : IsCut c d (q *ℤ pos d)) where
  abbrev result : RoundingMode → ℤ
  result mode = apply_rounding q (c -ℤ q *ℤ pos d) d (ltb_ℤ c (pos 0)) mode false

  down-IsRounded : IsRounded down c d (result down *ℤ pos d)
  unfolding apply_rounding
  down-IsRounded = ground arith

  up-IsRounded : IsRounded up c d (result up *ℤ pos d)
  unfolding apply_rounding
  up-IsRounded = ground (
    arith,
    -ℤ_parts c (q *ℤ pos d),
    mul_sign q d h,
    suc_mul q d,
    pred_mul q d,
    +ℤ_parts (q *ℤ pos d) (pos d),
    -ℤ_parts (q *ℤ pos d) (pos d),
    +ℤ_parts (q *ℤ pos d -ℤ pos d) (pos d),
    +ℤ_parts c (pos d),
  )

  floor-IsRounded : IsRounded floor c d (result floor *ℤ pos d)
  unfolding apply_rounding
  floor-IsRounded = ground (
    arith,
    -ℤ_parts c (q *ℤ pos d),
    pred-eq q,
    pred_mul q d,
    +ℤ_parts (q *ℤ pos d) (pos d),
    -ℤ_parts (q *ℤ pos d) (pos d),
    +ℤ_parts (q *ℤ pos d -ℤ pos d) (pos d),
    +ℤ_parts c (pos d),
  )

  ceil-IsRounded : IsRounded ceil c d (result ceil *ℤ pos d)
  unfolding apply_rounding
  ceil-IsRounded = ground (
    arith,
    -ℤ_parts c (q *ℤ pos d),
    suc_mul q d,
    +ℤ_parts (q *ℤ pos d) (pos d),
    +ℤ_parts c (pos d),
  )

  half_up-IsRounded : IsRounded half_up c d (result half_up *ℤ pos d)
  unfolding apply_rounding
  half_up-IsRounded = ground (
    arith,
    -ℤ_parts c (q *ℤ pos d),
    suc_mul q d,
    pred_mul q d,
    +ℤ_parts (q *ℤ pos d) (pos d),
    -ℤ_parts (q *ℤ pos d) (pos d),
    +ℤ_parts c (pos d),
    +ℤ_parts c c,
    +ℤ_parts (c +ℤ c) (pos d),
    twice_parts (q *ℤ pos d) d,
    twice_parts (q *ℤ pos d +ℤ pos d) d,
    twice_parts (q *ℤ pos d -ℤ pos d) d,
  )

  half_even-near :
      (result half_even *ℤ pos d +ℤ result half_even *ℤ pos d ≤ℤ c +ℤ c +ℤ pos d)
      × (c +ℤ c ≤ℤ result half_even *ℤ pos d +ℤ result half_even *ℤ pos d +ℤ pos d)
  unfolding apply_rounding
  half_even-near = ground (
    arith,
    -ℤ_parts c (q *ℤ pos d),
    suc_mul q d,
    pred_mul q d,
    +ℤ_parts (q *ℤ pos d) (pos d),
    -ℤ_parts (q *ℤ pos d) (pos d),
    +ℤ_parts c (pos d),
    +ℤ_parts c c,
    +ℤ_parts (c +ℤ c) (pos d),
    twice_parts (q *ℤ pos d) d,
    twice_parts (q *ℤ pos d +ℤ pos d) d,
    twice_parts (q *ℤ pos d -ℤ pos d) d,
  )

  half_even-Beside : Beside c (q *ℤ pos d) d (result half_even *ℤ pos d)
  unfolding apply_rounding
  half_even-Beside = ground (arith, suc_mul q d, pred_mul q d)

  half_even-even : nat_abs (c -ℤ q *ℤ pos d) * 2 ≡ d → (k : ℤ) × (result half_even ≡ k +ℤ k)
  unfolding apply_rounding
  half_even-even tie =
      let (even, odd) = halves q in
      elim (Bool-cases (nat_abs q % 2 == 0)) [
        | inl even_q ↦
            let (k, e) = even even_q in
            let same : result half_even ≡ q = ground (arith, tie, even_q, h) in (k, same ∙ e)
        | inr odd_q ↦ elim (Bool-cases (ltb_ℤ c (pos 0))) [
          | inl below ↦
              let (k, e) = (odd odd_q).1 in
              let same : result half_even ≡ q +ℤ negsuc 0 = ground (arith, tie, odd_q, below, h) in
              (k, same ∙ e)
          | inr above ↦
              let (k, e) = (odd odd_q).0 in
              let same : result half_even ≡ q +ℤ pos 1 = ground (arith, tie, odd_q, above, h) in
              (k, same ∙ e)
        ]
      ]

  half_even-IsRounded : IsRounded half_even c d (result half_even *ℤ pos d)
  half_even-IsRounded = (
    half_even-near.0,
    half_even-near.1,
    λ tie.
        let (k, even) = half_even-even (tie_half c (q *ℤ pos d) _ d is_cut half_even-Beside tie) in
        (k, ap (λ (x : ℤ). x *ℤ pos d) even),
  )

-- Rounding a coefficient by a positive divisor gives a multiple of the divisor that is next to the
-- coefficient on the side, or as near, as the mode says.
pub rounded-IsRounded :
    (mode : RoundingMode) (c : ℤ) (d : ℕ) → 0 < d → IsRounded mode c d (rounded mode c d *ℤ pos d)
rounded-IsRounded down c d h = down-IsRounded c (quot c (pos d)) d h (quot-IsCut c d h)
rounded-IsRounded up c d h = up-IsRounded c (quot c (pos d)) d h (quot-IsCut c d h)
rounded-IsRounded floor c d h = floor-IsRounded c (quot c (pos d)) d h (quot-IsCut c d h)
rounded-IsRounded ceil c d h = ceil-IsRounded c (quot c (pos d)) d h (quot-IsCut c d h)
rounded-IsRounded half_up c d h = half_up-IsRounded c (quot c (pos d)) d h (quot-IsCut c d h)
rounded-IsRounded half_even c d h = half_even-IsRounded c (quot c (pos d)) d h (quot-IsCut c d h)

small-div : (n d : ℕ) → n < d → n / d ≡ 0
small-div n d h = grind (arith, cut n d)

quot_small : (n d : ℕ) → suc n < d → quot (negsuc n) (pos d) ≡ pos 0
unfolding quot neg_ℤ
quot_small n d h = rw (small-div (suc n) d h)

-- Where `up` errs: a negative coefficient that is smaller than the divisor is cut off to zero, and
-- `up`, which is to go away from zero, then goes up, to one: the result has the other sign.
pub up_of_small_negative : (n d : ℕ) → suc n < d → rounded up (negsuc n) d ≡ pos 1
unfolding apply_rounding
up_of_small_negative n d h =
    let nothing = quot_small n d h in
    rw nothing
      (ground (arith, -ℤ_parts (negsuc n) (pos 0 *ℤ pos d), pos_mul 0 d, +ℤ_parts (pos 0) (pos 1)))
