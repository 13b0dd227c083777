-- ===== src/Prelude/Table.antt =====
-- JavaScript's `Map`: an association list in insertion order. `set` on a key that is present keeps
-- its place, `delete` removes it. Keys are compared by an instance of `Eq`.
use Prim.Native.String.{String}
use mathlib.Core.Path.{◌≡◌, refl}
use mathlib.Core.Logic.{◌↔◌}
use mathlib.Core.Bool.{Bool, true}
use mathlib.Core.Option.{Option, none, some}
use mathlib.Core.List.{List, [], ◌∷◌}
use native.Mathlib.Omega.{arith}
use text.Mathlib.Text.{◌==◌ as str_eq}
use text.Mathlib.TextEquality.{eq_iff}
use ztrade.Prelude.Tests.{if◌then◌else◌}
use ztrade.Prelude.Int.{ℤ, ◌==ℤ◌, ==ℤ_iff}

pub record Eq {ℓ} (K : Type ℓ) : Type ℓ where
  pub beq : K → K → Bool
  pub beq_iff : (a b : K) → (beq a b ≡ true) ↔ (a ≡ b)

instance abbrev pub string_eq : Eq String
string_eq = record { beq = str_eq; beq_iff = eq_iff }

instance abbrev pub int_eq : Eq ℤ
int_eq = record { beq = ◌==ℤ◌; beq_iff = ==ℤ_iff }

abbrev pub Table {ℓ κ} : Type ℓ → Type κ → Type (ℓ ⊔ κ)
Table K V = List (K × V)

module _ {ℓ κ} {K : Type ℓ} {V : Type κ} ⦃e : Eq K⦄ where
  -- `m.get(k)`
  abbrev pub lookup : K → Table K V → Option V
  lookup k [] = none
  lookup k ((j, v) ∷ m) = if e.beq j k then some v else lookup k m

  -- `m.set(k, v)`
  abbrev pub insert : K → V → Table K V → Table K V
  insert k v [] = (k, v) ∷ []
  insert k v ((j, w) ∷ m) = if e.beq j k then (j, v) ∷ m else (j, w) ∷ insert k v m

  -- `m.delete(k)`
  abbrev pub erase : K → Table K V → Table K V
  erase k [] = []
  erase k ((j, w) ∷ m) = if e.beq j k then erase k m else (j, w) ∷ erase k m

  pub lookup-insert :
      (k j : K) (v : V) (m : Table K V)
      → lookup j (insert k v m) ≡ (if e.beq k j then some v else lookup j m)
  lookup-insert k j v [] = refl
  lookup-insert k j v ((i, w) ∷ m) =
      ground (arith, e.beq_iff k j, e.beq_iff i k, e.beq_iff i j, lookup-insert k j v m)

  pub insert-insert : (k : K) (v w : V) (m : Table K V) → insert k v (insert k w m) ≡ insert k v m
  insert-insert k v w [] = ground (arith, e.beq_iff k k)
  insert-insert k v w ((j, x) ∷ m) = ground (arith, insert-insert k v w m)

  pub lookup-erase :
      (k j : K) (m : Table K V) → lookup j (erase k m) ≡ (if e.beq k j then none else lookup j m)
  lookup-erase k j [] = ground arith
  lookup-erase k j ((i, w) ∷ m) =
      ground (arith, e.beq_iff k j, e.beq_iff i k, e.beq_iff i j, lookup-erase k j m)

pub beq_refl {ℓ} : {K : Type ℓ} ⦃e : Eq K⦄ (k : K) → e.beq k k ≡ true
beq_refl ⦃e⦄ k = (e.beq_iff k k).1 refl

module _ {ℓ κ} {K : Type ℓ} {V : Type κ} ⦃e : Eq K⦄ where
  -- No key occurs twice, which is how maps are made.
  abbrev pub Distinct : Table K V → Type κ
  Distinct [] = Unit
  Distinct ((k, v) ∷ m) = (lookup k m ≡ none) × Distinct m

  pub insert-Distinct : (k : K) (v : V) (m : Table K V) → Distinct m → Distinct (insert k v m)
  insert-Distinct k v [] h = (refl, tt)
  insert-Distinct k v ((j, w) ∷ m) h =
      ground (arith, e.beq_iff j k, e.beq_iff k j, lookup-insert k j v m, insert-Distinct k v m)

  pub erase-Distinct : (k : K) (m : Table K V) → Distinct m → Distinct (erase k m)
  erase-Distinct k [] h = tt
  erase-Distinct k ((j, w) ∷ m) h = ground (arith, lookup-erase k j m, erase-Distinct k m)
