-- ===== src/Prelude/Text.antt =====
-- Texts as lists of code points, and their equality.
use Prim.Native.Nat.{ℕ}
use mathlib.Core.Path.{◌≡◌}
use mathlib.Core.Logic.{◌↔◌}
use mathlib.Core.Bool.{Bool, true, false, ◌&&◌}
use mathlib.Core.List.{List, [], ◌∷◌}
use native.Mathlib.Omega.{arith}
use ztrade.Prelude.Tests.{◌==◌}

abbrev pub Text : Type 0
Text = List ℕ

abbrev pub same_text : Text → Text → Bool
same_text [] [] = true
same_text (a ∷ x) (b ∷ y) = a == b && same_text x y
same_text _ _ = false

pub same_text_iff : (x y : Text) → (same_text x y ≡ true) ↔ (x ≡ y)
same_text_iff [] [] = ground arith
same_text_iff [] (b ∷ y) = ground arith
same_text_iff (a ∷ x) [] = ground arith
same_text_iff (a ∷ x) (b ∷ y) = ground (arith, same_text_iff x y)
