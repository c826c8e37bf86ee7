-- ===== src/Numerals/Signs.antt =====
-- Which texts `int` reads as negative numbers.
use ebdental_api.Prelude.{
  Text, ℕ, false, Option, none, some, [], ◌∷◌, ◌≡◌, ◌⊎◌, refl, inl, inr, All, ◌==◌, if◌then◌else◌,
  Bool-cases,
}
use ebdental_api.Prelude.Int.{pos}
use ebdental_api.Numerals.{
  is_space, lstrip, rstrip, strip, read_digits, read_signed, python_int, as_positive,
}

-- A text without a minus sign is no number, or not a negative one.
abbrev pub NoMinus : Text → Type 0
NoMinus = All (λ c. (c == b'-') ≡ false)

lstrip-NoMinus : (s : Text) → NoMinus s → NoMinus (lstrip s)
unfolding lstrip
lstrip-NoMinus [] h = tt
lstrip-NoMinus (c ∷ s) (a, b) = elim (Bool-cases (is_space c)) [
  | inl e ↦ rw e (lstrip-NoMinus s b)
  | inr e ↦ rw e (a, b)
]

rstrip_cons : ℕ → Text → Text
rstrip_cons c [] = if is_space c then [] else c ∷ []
rstrip_cons c (d ∷ r) = c ∷ d ∷ r

rstrip_cons-NoMinus :
    (c : ℕ) (r : Text) → (c == b'-') ≡ false → NoMinus r → NoMinus (rstrip_cons c r)
unfolding rstrip_cons
rstrip_cons-NoMinus c [] a h = elim (Bool-cases (is_space c)) [
  | inl e ↦ rw e tt
  | inr e ↦ rw e (a, tt)
]
rstrip_cons-NoMinus c (d ∷ r) a h = (a, h)

rstrip_lem : (c : ℕ) (s : Text) → rstrip (c ∷ s) ≡ rstrip_cons c (rstrip s)
unfolding rstrip rstrip_cons
rstrip_lem c s = refl

rstrip-NoMinus : (s : Text) → NoMinus s → NoMinus (rstrip s)
unfolding rstrip
rstrip-NoMinus [] h = tt
rstrip-NoMinus (c ∷ s) (a, b) =
    rw (rstrip_lem c s) (rstrip_cons-NoMinus c (rstrip s) a (rstrip-NoMinus s b))

as_positive-cases :
    (o : Option ℕ) → (as_positive o ≡ none) ⊎ ((m : ℕ) × (as_positive o ≡ some (pos m)))
as_positive-cases none = inl refl
as_positive-cases (some m) = inr (m, refl)

read_signed-NoMinus :
    (s : Text) → NoMinus s → (read_signed s ≡ none) ⊎ ((m : ℕ) × (read_signed s ≡ some (pos m)))
unfolding read_signed
read_signed-NoMinus [] h = inl refl
read_signed-NoMinus (c ∷ s) (a, b) = elim (Bool-cases (c == b'+')) [
  | inl e ↦ rw (a, e) (as_positive-cases (read_digits false 0 s))
  | inr e ↦ rw (a, e) (as_positive-cases (read_digits false 0 (c ∷ s)))
]

pub python_int-NoMinus :
    (s : Text) → NoMinus s → (python_int s ≡ none) ⊎ ((m : ℕ) × (python_int s ≡ some (pos m)))
unfolding python_int strip
python_int-NoMinus s h =
    read_signed-NoMinus (rstrip (lstrip s)) (rstrip-NoMinus (lstrip s) (lstrip-NoMinus s h))
