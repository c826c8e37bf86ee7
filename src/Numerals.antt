-- ===== src/Numerals.antt =====
-- Python's `str.strip`, `str(n)`, `f"{n:02d}"` and `int(s)` on texts of Latin-1 characters with ASCII
-- digits.
pub mod ReadBack
pub mod Signs
pub mod Xor
use ebdental_api.Prelude.{
  Text, ℕ, zero, suc, ◌+◌, ◌-◌, ◌*◌, ◌/◌, ◌%◌, Bool, true, false, ◌&&◌, ◌||◌, Option, none, some,
  [], ◌∷◌, ◌++◌, ltb, leb, ◌==◌, if◌then◌else◌,
}
use ebdental_api.Prelude.Int.{ℤ, pos, negsuc}

unfoldable pub is_space : ℕ → Bool
is_space c = (leb 9 c && leb c 13) || (leb 28 c && leb c 32) || c == 0x85 || c == 0xa0

unfoldable pub lstrip : Text → Text
lstrip [] = []
lstrip (c ∷ s) = if is_space c then lstrip s else c ∷ s

unfoldable pub rstrip : Text → Text
rstrip [] = []
rstrip (c ∷ s) = elim (rstrip s) [ [] ↦ if is_space c then [] else c ∷ [] | d ∷ r ↦ c ∷ d ∷ r ]

unfoldable pub strip : Text → Text
unfolding lstrip rstrip is_space
strip s = rstrip (lstrip s)

unfoldable pub is_digit : ℕ → Bool
is_digit c = leb b'0' c && leb c b'9'

-- The decimal digits of `n`, on fuel: one more than `n` is more than there are digits.
unfoldable pub digits_of : ℕ → ℕ → Text
digits_of zero n = []
digits_of (suc fuel) n = elim (ltb n 10) [
  | true ↦ (b'0' + n) ∷ []
  | false ↦ digits_of fuel (n / 10) ++ ((b'0' + n % 10) ∷ [])
]

-- str(n)
unfoldable pub str_nat : ℕ → Text
unfolding digits_of
str_nat n = digits_of (suc n) n

-- f"{n:02d}"
unfoldable pub two_digits : ℕ → Text
unfolding str_nat
two_digits n = if ltb n 10 then b'0' ∷ str_nat n else str_nat n

-- The digits of a number, with single underscores between digits. The flag says that the character
-- before was a digit.
unfoldable pub read_digits : Bool → ℕ → Text → Option ℕ
unfolding is_digit
read_digits true n [] = some n
read_digits false n [] = none
read_digits after n (c ∷ s) = elim (is_digit c) [
  | true ↦ read_digits true (n * 10 + (c - b'0')) s
  | false ↦ elim (c == b'_' && after) [ true ↦ read_digits false n s | false ↦ none ]
]

abbrev pub as_positive : Option ℕ → Option ℤ
as_positive none = none
as_positive (some n) = some (pos n)

abbrev pub as_negative : Option ℕ → Option ℤ
as_negative none = none
as_negative (some zero) = some (pos 0)
as_negative (some (suc n)) = some (negsuc n)

unfoldable pub read_signed : Text → Option ℤ
unfolding read_digits
read_signed [] = none
read_signed (c ∷ s) =
    if c == b'-'
    then as_negative (read_digits false 0 s)
    else (if c == b'+'
        then as_positive (read_digits false 0 s)
        else as_positive (read_digits false 0 (c ∷ s)))

-- int(s), where `none` is a ValueError.
unfoldable pub python_int : Text → Option ℤ
unfolding strip read_signed
python_int s = read_signed (strip s)
