-- ===== src/Features/RingBuffer/Slots.antt =====
-- Lists by index, and the arithmetic of slots.
use ztrade.Prelude.{
  ℕ, zero, suc, ◌+◌, ◌-◌, ◌%◌, ◌≤◌, ◌<◌, ◌≡◌, refl, ap, ◌∙◌, ◌≢◌, inl, inr, none, some, List, [],
  ◌∷◌, ◌++◌, arith, ltb, ◌==◌, if◌then◌else◌, Bool-cases, length, get_elem?,
}
use native.Mathlib.Nat.{mod-eq_of_lt, mod-add-mod, mod-eq-sub-mod}
use ztrade.Features.RingBuffer.{replicate, set}

pub get_elem?-set_self {ℓ} :
    {A : Type ℓ} (xs : List A) (i : ℕ) (v : A) → i < length xs → get_elem? (set xs i v) i ≡ some v
get_elem?-set_self [] i v h = absurd (omega arith)
get_elem?-set_self (x ∷ xs) zero v h = refl
get_elem?-set_self (x ∷ xs) (suc i) v h = get_elem?-set_self xs i v (omega arith)

pub get_elem?-set_other {ℓ} :
    {A : Type ℓ} (xs : List A) (i j : ℕ) (v : A) → i ≢ j → get_elem? (set xs i v) j ≡ get_elem? xs j
get_elem?-set_other [] i j v h = refl
get_elem?-set_other (x ∷ xs) zero zero v h = absurd (h refl)
get_elem?-set_other (x ∷ xs) zero (suc j) v h = refl
get_elem?-set_other (x ∷ xs) (suc i) zero v h = refl
get_elem?-set_other (x ∷ xs) (suc i) (suc j) v h = get_elem?-set_other xs i j v (λ e. h (ap suc e))

pub length-set {ℓ} : {A : Type ℓ} (xs : List A) (i : ℕ) (v : A) → length (set xs i v) ≡ length xs
length-set [] i v = refl
length-set (x ∷ xs) zero v = refl
length-set (x ∷ xs) (suc i) v = ap suc (length-set xs i v)

pub length-replicate {ℓ} : {A : Type ℓ} (n : ℕ) (x : A) → length (replicate n x) ≡ n
length-replicate zero x = refl
length-replicate (suc n) x = ap suc (length-replicate n x)

pub get_elem?-append {ℓ} :
    {A : Type ℓ} (xs : List A) (i : ℕ) (v : A)
    → get_elem? (xs ++ (v ∷ [])) i ≡ (if i == length xs then some v else get_elem? xs i)
get_elem?-append [] zero v = refl
get_elem?-append [] (suc i) v = ground arith
get_elem?-append (x ∷ xs) zero v = ground arith
get_elem?-append (x ∷ xs) (suc i) v = get_elem?-append xs i v ∙ ground arith

-- Two indices less than a lap apart lie in different slots.
pub slots_differ : (c i n : ℕ) → i < n → n < i + c → i % c ≢ n % c
slots_differ c i n h k e = grind arith

-- Where reading starts.
pub slot_of :
    (c n head count i : ℕ)
    → 0 < c
    → head ≡ n % c
    → count ≡ n - (n - c)
    → ((head + c - count) % c + i) % c ≡ (n - count + i) % c
slot_of c n head count i p e f = elim (Bool-cases (ltb n c)) [
  | inl small ↦
      let below : n < c = ground (arith, small) in
      let same_head : head ≡ n = e ∙ mod-eq_of_lt below in
      let same_count : count ≡ n = omega (arith, f, below) in
      let lap : head + c - count ≡ c = omega (arith, same_head, same_count) in
      let none_before : n - count ≡ 0 = omega (arith, same_count) in
      rw (lap, none_before, mod-add-mod c c i)
        (mod-eq-sub-mod (omega arith) ∙ ap (λ (t : ℕ). t % c) (omega arith))
  | inr large ↦
      let above : c ≤ n = ground (arith, large) in
      let same_count : count ≡ c = omega (arith, f, above) in
      let start : head + c - count ≡ n % c = omega (arith, e, same_count) in
      rw (start, same_count, mod-add-mod (n % c) c i, mod-add-mod n c i)
        (mod-eq-sub-mod (omega (arith, above)) ∙ ap (λ (t : ℕ). t % c) (omega (arith, above)))
]

pub absent {ℓ} : {A : Type ℓ} (xs : List A) (i : ℕ) → length xs ≤ i → get_elem? xs i ≡ none
absent [] i h = refl
absent (x ∷ xs) zero h = absurd (omega arith)
absent (x ∷ xs) (suc i) h = absent xs i (omega arith)

pub last_slot : (c n head : ℕ) → 0 < c → head ≡ n % c → 0 < n → (head + c - 1) % c ≡ (n - 1) % c
last_slot c n head p e q =
    let start : head + c - 1 ≡ n % c + (c - 1) = omega (arith, e, p) in
    let lap : n + (c - 1) - c ≡ n - 1 = omega arith in
    rw (start, mod-add-mod n c (c - 1)) (mod-eq-sub-mod (omega arith) ∙ ap (λ (t : ℕ). t % c) lap)

-- The last `n` values.
abbrev pub drop {ℓ} : {A : Type ℓ} → ℕ → List A → List A
drop zero xs = xs
drop (suc n) [] = []
drop (suc n) (x ∷ xs) = drop n xs

abbrev pub last_n {ℓ} : {A : Type ℓ} → ℕ → List A → List A
last_n n xs = drop (length xs - n) xs
