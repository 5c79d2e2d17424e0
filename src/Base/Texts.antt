-- ===== src/Base/Texts.antt =====
-- Identifiers, as the list of their code points, with Python's `==`.
use Prim.Native.Nat.{ℕ}
use mathlib.Core.Path.{◌≡◌, refl}
use mathlib.Core.Logic.{◌↔◌}
use mathlib.Core.Bool.{Bool, true, false, ◌&&◌}
use mathlib.Core.List.{List, [], ◌∷◌}
use native.Mathlib.Omega.{arith}
use interview_assignment.Base.Tests.{◌==◌}

abbrev pub Text : Type 0
Text = List ℕ

unfoldable pub text_eq : Text → Text → Bool
text_eq [] [] = true
text_eq [] (_ ∷ _) = false
text_eq (_ ∷ _) [] = false
text_eq (a ∷ x) (b ∷ y) = a == b && text_eq x y

pub text_eq_iff : (x y : Text) → (text_eq x y ≡ true) ↔ (x ≡ y)
unfolding text_eq
text_eq_iff [] [] = (λ _. refl, λ _. refl)
text_eq_iff [] (b ∷ y) = ground arith
text_eq_iff (a ∷ x) [] = ground arith
text_eq_iff (a ∷ x) (b ∷ y) = ground (arith, text_eq_iff x y)

pub text_eq_refl : (x : Text) → text_eq x x ≡ true
text_eq_refl x = (text_eq_iff x x).1 refl
