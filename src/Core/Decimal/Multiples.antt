-- ===== src/Core/Decimal/Multiples.antt =====
-- Arithmetic of the multiples of a divisor, and of halves, for the proofs on rounding.
use ztrade.Prelude.{
  ℕ, zero, suc, ◌+◌, ◌*◌, ◌/◌, ◌%◌, ◌<◌, ◌≡◌, ap, ◌∙◌, ◌≢◌, true, false, arith, ◌==◌,
}
use ztrade.Prelude.Int.{
  ℤ, pos, negsuc, pos_part, neg_part, nat_abs, ◌+ℤ◌, ◌-ℤ◌, ◌*ℤ◌, neg_ℤ, ◌≤ℤ◌, ◌<ℤ◌, +ℤ_parts,
  -ℤ_parts, *ℤ_parts, neg_parts, eq_of_parts, int_laws,
}

-- `q * d` and what is left, in numbers.
pub cut : (n d : ℕ) → 0 < d → (n ≡ (n / d) * d + n % d) × (n % d < d)
cut n d h = grind arith

pub neg_mul : (m d : ℕ) → neg_ℤ (pos m) *ℤ pos d ≡ neg_ℤ (pos (m * d))
unfolding ◌*ℤ◌ neg_ℤ
neg_mul zero d = ground arith
neg_mul (suc m) d = ground arith

pub pos_mul : (m d : ℕ) → pos m *ℤ pos d ≡ pos (m * d)
unfolding ◌*ℤ◌
pos_mul m d = ground arith

-- Products by a number, through the parts.
pub add_mul : (a b : ℤ) (d : ℕ) → (a +ℤ b) *ℤ pos d ≡ a *ℤ pos d +ℤ b *ℤ pos d
add_mul a b d = eq_of_parts _ _ (
    omega (
      arith,
      *ℤ_parts (a +ℤ b) (pos d),
      *ℤ_parts a (pos d),
      *ℤ_parts b (pos d),
      +ℤ_parts (a *ℤ pos d) (b *ℤ pos d),
      ap (λ (t : ℕ). t * d) (+ℤ_parts a b),
    ))

pub sub_mul : (a b : ℤ) (d : ℕ) → (a -ℤ b) *ℤ pos d ≡ a *ℤ pos d -ℤ b *ℤ pos d
sub_mul a b d = eq_of_parts _ _ (
    omega (
      arith,
      *ℤ_parts (a -ℤ b) (pos d),
      *ℤ_parts a (pos d),
      *ℤ_parts b (pos d),
      -ℤ_parts (a *ℤ pos d) (b *ℤ pos d),
      ap (λ (t : ℕ). t * d) (-ℤ_parts a b),
    ))

one_mul : (d : ℕ) → pos 1 *ℤ pos d ≡ pos d
one_mul d = pos_mul 1 d ∙ ap pos (omega arith)

minus_one_mul : (d : ℕ) → negsuc 0 *ℤ pos d ≡ neg_ℤ (pos d)
minus_one_mul d = eq_of_parts _ _ (omega (arith, *ℤ_parts (negsuc 0) (pos d), neg_parts (pos d)))

pub suc_mul : (q : ℤ) (d : ℕ) → (q +ℤ pos 1) *ℤ pos d ≡ q *ℤ pos d +ℤ pos d
suc_mul q d = add_mul q (pos 1) d ∙ rw (one_mul d)

pub pred_mul : (q : ℤ) (d : ℕ) → (q +ℤ negsuc 0) *ℤ pos d ≡ q *ℤ pos d -ℤ pos d
pred_mul q d = add_mul q (negsuc 0) d ∙ rw (minus_one_mul d) (omega (int_laws, neg_parts (pos d)))

pub twice_parts :
    (p : ℤ) (d : ℕ)
    → (pos_part (p +ℤ p) + 2 * neg_part p ≡ neg_part (p +ℤ p) + 2 * pos_part p)
      × (pos_part (p +ℤ p +ℤ pos d) + 2 * neg_part p
          ≡ neg_part (p +ℤ p +ℤ pos d) + 2 * pos_part p + d)
twice_parts p d = omega (arith, +ℤ_parts p p, +ℤ_parts (p +ℤ p) (pos d))

pub pred-eq : (q : ℤ) → q -ℤ pos 1 ≡ q +ℤ negsuc 0
unfolding ◌+ℤ◌ ◌-ℤ◌
pred-eq q = ground arith

times_suc : (m d : ℕ) → suc m * d ≡ m * d + d
times_suc m d = omega arith

-- A multiple of the divisor has the sign of its quotient, and a negative one is not small.
pub mul_sign :
    (q : ℤ) (d : ℕ)
    → 0 < d
    → (q <ℤ pos 0 → q *ℤ pos d +ℤ pos d ≤ℤ pos 0) × (pos 0 ≤ℤ q → pos 0 ≤ℤ q *ℤ pos d)
mul_sign (pos m) d h = rw (pos_mul m d) (λ k. absurd (omega arith), λ k. omega arith)
mul_sign (negsuc m) d h = (
  λ k.
      omega
        (arith, *ℤ_parts (negsuc m) (pos d), +ℤ_parts (negsuc m *ℤ pos d) (pos d), times_suc m d),
  λ k. absurd (omega arith),
)

-- An even integer is twice another, and so are the neighbours of an odd one.
even_half : (n : ℕ) → (n % 2 == 0) ≡ true → n ≡ n / 2 + n / 2
even_half n h = let e : n % 2 ≡ 0 = ground (arith, h) in omega (arith, cut n 2, e)

odd_half : (n : ℕ) → (n % 2 == 0) ≡ false → n ≡ n / 2 + n / 2 + 1
odd_half n h = let e : n % 2 ≢ 0 = ground (arith, h) in omega (arith, cut n 2 (omega arith), e)

pub halves :
    (q : ℤ)
    → ((nat_abs q % 2 == 0) ≡ true → (k : ℤ) × (q ≡ k +ℤ k))
      × ((nat_abs q % 2 == 0) ≡ false
          → ((k : ℤ) × (q +ℤ pos 1 ≡ k +ℤ k)) × ((k : ℤ) × (q +ℤ negsuc 0 ≡ k +ℤ k)))
halves (pos m) =
    let j = m / 2 in
    (
      λ h. (pos j, eq_of_parts _ _ (omega (arith, even_half m h, +ℤ_parts (pos j) (pos j)))),
      λ h. (
        (
          pos (j + 1),
          eq_of_parts _ _ (
              omega (
                arith,
                odd_half m h,
                +ℤ_parts (pos m) (pos 1),
                +ℤ_parts (pos (j + 1)) (pos (j + 1)),
              )),
        ),
        (
          pos j,
          eq_of_parts _ _
              (omega (arith, odd_half m h, +ℤ_parts (pos m) (negsuc 0), +ℤ_parts (pos j) (pos j))),
        ),
      ),
    )
halves (negsuc m) =
    let j = suc m / 2 in
    (
      λ h. (
        neg_ℤ (pos j),
        eq_of_parts _ _
            (omega (arith, even_half (suc m) h, twice_parts (neg_ℤ (pos j)) 0, neg_parts (pos j))),
      ),
      λ h. (
        (
          neg_ℤ (pos j),
          eq_of_parts _ _ (
              omega (
                arith,
                odd_half (suc m) h,
                +ℤ_parts (negsuc m) (pos 1),
                twice_parts (neg_ℤ (pos j)) 0,
                neg_parts (pos j),
              )),
        ),
        (
          neg_ℤ (pos (j + 1)),
          eq_of_parts _ _ (
              omega (
                arith,
                odd_half (suc m) h,
                +ℤ_parts (negsuc m) (negsuc 0),
                twice_parts (neg_ℤ (pos (j + 1))) 0,
                neg_parts (pos (j + 1)),
              )),
        ),
      ),
    )
