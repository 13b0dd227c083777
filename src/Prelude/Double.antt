-- ===== src/Prelude/Double.antt =====
-- The program's `number`: IEEE-754 doubles belong to the JavaScript engine, so their type and their
-- operations are a parameter, and what a proof needs of them is a named law.
use Prim.Native.Nat.{ℕ, ◌/◌, ◌^◌}
use mathlib.Core.Path.{◌≡◌}
use mathlib.Core.Option.{Option, none, some}
use mathlib.Core.Bool.{Bool, true, false}
use native.Mathlib.Omega.{arith}
use ztrade.Prelude.Tests.{if◌then◌else◌}
use ztrade.Prelude.Int.{ℤ, pos, nat_abs, ◌+ℤ◌, ◌-ℤ◌, ◌*ℤ◌, neg_ℤ, ltb_ℤ, leb_ℤ, ◌==ℤ◌}

-- `literal m k` is the double nearest to m / 10 ^ k; `eq` is `===`.
pub record Double (F : Type 0) : Type 0 where
  pub literal : ℕ → ℕ → F
  pub lt : F → F → Bool
  pub le : F → F → Bool
  pub eq : F → F → Bool
  pub is_finite : F → Bool
  pub add : F → F → F
  pub sub : F → F → F
  pub mul : F → F → F
  pub div : F → F → F
  pub neg : F → F
  pub abs : F → F
  pub max : F → F → F
  pub min : F → F → F
  pub ceil : F → F

infix 50 ◌≼◌ ◌≺◌
abbrev pub ◌≼◌ : {F : Type 0} ⦃d : Double F⦄ → F → F → Type 0
◌≼◌ ⦃d⦄ x y = d.le x y ≡ true

abbrev pub ◌≺◌ : {F : Type 0} ⦃d : Double F⦄ → F → F → Type 0
◌≺◌ ⦃d⦄ x y = d.lt x y ≡ true

-- The order of the doubles. NaN is the value that is not `<=` itself, and the order is total away
-- from it. `Math.min` of two numbers is below both and one of them.
pub record IsOrdered (F : Type 0) ⦃d : Double F⦄ : Type 0 where
  pub literal_nonneg : (m k : ℕ) → d.literal 0 0 ≼ d.literal m k
  pub refl_of_le : (x y : F) → x ≼ y → (x ≼ x) × (y ≼ y)
  pub le_trans : (x y z : F) → x ≼ y → y ≼ z → x ≼ z
  pub le_of_lt : (x y : F) → x ≺ y → x ≼ y
  pub not_lt_of_le : (x y : F) → x ≼ y → d.lt y x ≡ false
  pub le_of_not_lt : (x y : F) → x ≼ x → y ≼ y → d.lt x y ≡ false → y ≼ x
  pub le_of_not_le : (x y : F) → x ≼ x → y ≼ y → d.le x y ≡ false → y ≼ x
  pub min_le : (x y : F) → x ≼ x → y ≼ y → (d.min x y ≼ x) × (d.min x y ≼ y)
  pub max_le : (x y : F) → x ≼ x → y ≼ y → (x ≼ d.max x y) × (y ≼ d.max x y)
  pub add_nan : (x y : F) → d.le y y ≡ false → d.le (d.add x y) (d.add x y) ≡ false
  -- rounding is monotone, so a sum of two that are not negative, infinite or not, is above both
  pub add_le : (x y : F) → d.literal 0 0 ≼ x → d.literal 0 0 ≼ y → x ≼ d.add x y

-- The laws can be met: whole units with truncated division, and `none` for NaN.
abbrev quot_ℤ : ℤ → ℤ → ℤ
quot_ℤ a b =
    if leb_ℤ (pos 0) (a *ℤ b)
    then pos (nat_abs a / nat_abs b)
    else neg_ℤ (pos (nat_abs a / nat_abs b))

abbrev pub Units : Type 0
Units = Option ℤ

abbrev both : (ℤ → ℤ → ℤ) → Units → Units → Units
both f (some a) (some b) = some (f a b)
both f _ _ = none

abbrev test : (ℤ → ℤ → Bool) → Units → Units → Bool
test f (some a) (some b) = f a b
test f _ _ = false

abbrev each : (ℤ → ℤ) → Units → Units
each f (some a) = some (f a)
each f none = none

abbrev is_number : Units → Bool
is_number (some a) = true
is_number none = false

instance abbrev pub whole_units : Double Units
whole_units = record {
  literal = λ m k. some (pos (m / 10 ^ k));
  lt = test ltb_ℤ;
  le = test leb_ℤ;
  eq = test ◌==ℤ◌;
  is_finite = is_number;
  add = both ◌+ℤ◌;
  sub = both ◌-ℤ◌;
  mul = both ◌*ℤ◌;
  div = both quot_ℤ;
  neg = each neg_ℤ;
  abs = each (λ x. pos (nat_abs x));
  max = both (λ x y. if leb_ℤ x y then y else x);
  min = both (λ x y. if leb_ℤ x y then x else y);
  ceil = λ x. x;
}

pub whole_units-IsOrdered : IsOrdered Units
unfolding ◌+ℤ◌
whole_units-IsOrdered = record {
  literal_nonneg = λ m k. ground arith;
  refl_of_le = λ x y h. ground arith;
  le_trans = λ x y z h k. ground arith;
  le_of_lt = λ x y h. ground arith;
  not_lt_of_le = λ x y h. ground arith;
  le_of_not_lt = λ x y h k l. ground arith;
  le_of_not_le = λ x y h k l. ground arith;
  min_le = λ x y h k. ground arith;
  max_le = λ x y h k. ground arith;
  add_nan = λ x y h. ground arith;
  add_le = λ x y h k. ground arith;
}
