-- ===== src/Prelude/Texts.antt =====
-- Equality of texts as a test.
use Prim.Native.Nat.{ℕ}
use mathlib.Core.Path.{◌≡◌, refl}
use mathlib.Core.Bool.{Bool, true, false, ◌&&◌}
use mathlib.Core.List.{List, [], ◌∷◌}
use native.Mathlib.Omega.{arith}
use ebdental_api.Prelude.Tests.{◌==◌}

abbrev pub text_eq : List ℕ → List ℕ → Bool
text_eq [] [] = true
text_eq [] (b ∷ bs) = false
text_eq (a ∷ as') [] = false
text_eq (a ∷ as') (b ∷ bs) = a == b && text_eq as' bs

pub text_eq_refl : (a : List ℕ) → text_eq a a ≡ true
text_eq_refl [] = refl
text_eq_refl (a ∷ l) = ground (arith, text_eq_refl l)

pub text_eq→≡ : (a b : List ℕ) → text_eq a b ≡ true → a ≡ b
text_eq→≡ [] [] h = refl
text_eq→≡ [] (b ∷ bs) h = cc
text_eq→≡ (a ∷ l) [] h = cc
text_eq→≡ (a ∷ l) (b ∷ m) h = ground (arith, text_eq→≡ l m)
