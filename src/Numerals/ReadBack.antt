-- ===== src/Numerals/ReadBack.antt =====
-- `int` reads back what `str` printed.
use ebdental_api.Prelude.{
  Text, ℕ, zero, suc, ◌+◌, ◌-◌, ◌*◌, ◌/◌, ◌%◌, ◌≤◌, ◌<◌, Bool, true, false, ◌&&◌, Option, none,
  some, [], ◌∷◌, ◌++◌, ◌≡◌, ◌≢◌, refl, sym, ap, ◌∙◌, inl, inr, arith, All, All-append, ltb, ◌==◌,
  if◌then◌else◌, length, ==_iff, length-append, Bool-cases, some-inj,
}
use ebdental_api.Prelude.Int.{ℤ, pos, negsuc}
use ebdental_api.Numerals.{
  is_space, lstrip, rstrip, strip, is_digit, digits_of, str_nat, two_digits, read_digits,
  read_signed, python_int,
}

abbrev pub IsDigits : Text → Type 0
IsDigits = All (λ c. is_digit c ≡ true)

read_digits_digit :
    (after : Bool) (n c : ℕ) (s : Text)
    → is_digit c ≡ true
    → read_digits after n (c ∷ s) ≡ read_digits true (n * 10 + (c - b'0')) s
unfolding read_digits
read_digits_digit true n c s a = rw (a, read_digits) refl
read_digits_digit false n c s a = rw (a, read_digits) refl

digits_of_last :
    (fuel n : ℕ)
    → ltb n 10 ≡ false
    → digits_of (suc fuel) n ≡ digits_of fuel (n / 10) ++ ((b'0' + n % 10) ∷ [])
unfolding digits_of
digits_of_last fuel n e = rw (e, digits_of) refl

digits_of_one : (fuel n : ℕ) → ltb n 10 ≡ true → digits_of (suc fuel) n ≡ (b'0' + n) ∷ []
unfolding digits_of
digits_of_one fuel n e = rw (e, digits_of) refl

read_digits_none : (n v : ℕ) → n ≡ v → read_digits true n [] ≡ some v
unfolding read_digits
read_digits_none n v e = ap some e

read_digits-append :
    (after : Bool) (n v d : ℕ) (s : Text)
    → IsDigits s
    → is_digit d ≡ true
    → read_digits after n s ≡ some v
    → read_digits after n (s ++ (d ∷ [])) ≡ some (v * 10 + (d - b'0'))
unfolding read_digits
read_digits-append true n v d [] a h e =
    let same : n ≡ v = some-inj e in
    read_digits_digit true n d [] h ∙ read_digits_none _ _ (omega (arith, same))
read_digits-append false n v d [] a h e = cc
read_digits-append after n v d (c ∷ s) (a, b) h e =
    read_digits_digit after n c (s ++ (d ∷ [])) a
    ∙ read_digits-append true (n * 10 + (c - b'0')) v d s b h
        (sym (read_digits_digit after n c s a) ∙ e)

digit-IsDigit : (n : ℕ) → n < 10 → is_digit (b'0' + n) ≡ true
unfolding is_digit
digit-IsDigit n h = ground arith

digits_of-IsDigits : (fuel n : ℕ) → IsDigits (digits_of fuel n)
unfolding digits_of
digits_of-IsDigits zero n = tt
digits_of-IsDigits (suc fuel) n = elim (Bool-cases (ltb n 10)) [
  | inl e ↦ rw (digits_of_one fuel n e) (digit-IsDigit n (ground arith), tt)
  | inr e ↦ rw (digits_of_last fuel n e) (
      All-append _ (digits_of fuel (n / 10)) _ (digits_of-IsDigits fuel (n / 10))
        (digit-IsDigit (n % 10) (omega arith), tt))
]

read_digits-digits_of : (fuel n : ℕ) → n < fuel → read_digits false 0 (digits_of fuel n) ≡ some n
read_digits-digits_of zero n h = absurd (omega arith)
read_digits-digits_of (suc fuel) n h = elim (Bool-cases (ltb n 10)) [
  | inl e ↦ rw (digits_of_one fuel n e) (
      read_digits_digit false 0 (b'0' + n) [] (digit-IsDigit n (ground arith))
      ∙ read_digits_none (0 * 10 + (b'0' + n - b'0')) n (omega arith))
  | inr e ↦ rw (digits_of_last fuel n e) (
      read_digits-append false 0 (n / 10) (b'0' + n % 10) (digits_of fuel (n / 10))
        (digits_of-IsDigits fuel (n / 10)) (digit-IsDigit (n % 10) (omega arith))
        (read_digits-digits_of fuel (n / 10) (ground arith))
      ∙ ap some (omega arith))
]

digit-not_space : (c : ℕ) → is_digit c ≡ true → is_space c ≡ false
unfolding is_digit is_space
digit-not_space c h = ground arith

lstrip-digits : (s : Text) → IsDigits s → lstrip s ≡ s
unfolding lstrip
lstrip-digits [] a = refl
lstrip-digits (c ∷ s) (a, b) = rw (digit-not_space c a) refl

rstrip-digits : (s : Text) → IsDigits s → rstrip s ≡ s
unfolding rstrip
rstrip-digits [] a = refl
rstrip-digits (c ∷ []) (a, b) = rw (digit-not_space c a) refl
rstrip-digits (c ∷ d ∷ s) (a, b) = rw (rstrip-digits (d ∷ s) b) refl

digit-not_sign : (c : ℕ) → is_digit c ≡ true → ((c == b'-') ≡ false) × ((c == b'+') ≡ false)
unfolding is_digit
digit-not_sign c h = ground arith

no_digits : (v : ℕ) → read_digits false 0 [] ≢ some v
unfolding read_digits
no_digits v h = cc

read_signed-digits :
    (s : Text) (v : ℕ) → IsDigits s → read_digits false 0 s ≡ some v → read_signed s ≡ some (pos v)
unfolding read_signed
read_signed-digits [] v a h = absurd (no_digits v h)
read_signed-digits (c ∷ s) v (a, b) h = rw ((digit-not_sign c a).0, (digit-not_sign c a).1, h) refl

pub python_int-digits :
    (s : Text) (v : ℕ) → IsDigits s → read_digits false 0 s ≡ some v → python_int s ≡ some (pos v)
unfolding python_int strip
python_int-digits s v a h =
    rw (lstrip-digits s a) (rw (rstrip-digits s a) (read_signed-digits s v a h))

-- `int(str(n))` is `n`.
pub python_int-str_nat : (n : ℕ) → python_int (str_nat n) ≡ some (pos n)
unfolding str_nat
python_int-str_nat n =
    python_int-digits _ n (digits_of-IsDigits (suc n) n)
      (read_digits-digits_of (suc n) n (omega arith))

-- Two digits, read back and measured, by a look at each number below a hundred.
unfoldable pub every_below : (ℕ → Bool) → ℕ → Bool
every_below test zero = true
every_below test (suc n) = if test n then every_below test n else false

pub every_below-at :
    (test : ℕ → Bool) (n : ℕ) {x : ℕ} → x < n → every_below test n ≡ true → test x ≡ true
unfolding every_below
every_below-at test zero h e = elim h [ ]
every_below-at test (suc n) {x} h e = elim (Bool-cases (x == n)) [
  | inl last ↦ rw ((==_iff x n).0 last) (ground arith)
  | inr before ↦ every_below-at test n (ground arith) (ground arith)
]

abbrev reads_as : ℕ → Option ℤ → Bool
reads_as n none = false
reads_as n (some (pos m)) = m == n
reads_as n (some (negsuc m)) = false

reads_as_sound : (n : ℕ) (o : Option ℤ) → reads_as n o ≡ true → o ≡ some (pos n)
reads_as_sound n none h = cc
reads_as_sound n (some (pos m)) h = ap (λ k. some (pos k)) ((==_iff m n).0 h)
reads_as_sound n (some (negsuc m)) h = cc

and_true : (a b : Bool) → a && b ≡ true → (a ≡ true) × (b ≡ true)
and_true true b h = (refl, h)
and_true false b h = cc

abbrev is_two_digits : ℕ → Bool
is_two_digits n = length (two_digits n) == 2 && reads_as n (python_int (two_digits n))

two_digits_table : every_below is_two_digits 100 ≡ true
unfolding every_below two_digits python_int
two_digits_table = refl

pub length-two_digits : (n : ℕ) → n < 100 → length (two_digits n) ≡ 2
length-two_digits n h =
    (==_iff _ 2).0 (and_true _ _ (every_below-at is_two_digits 100 h two_digits_table)).0

pub python_int-two_digits : (n : ℕ) → n < 100 → python_int (two_digits n) ≡ some (pos n)
python_int-two_digits n h =
    reads_as_sound n _ (and_true _ _ (every_below-at is_two_digits 100 h two_digits_table)).1

abbrev pub ten_to : ℕ → ℕ
ten_to zero = 1
ten_to (suc k) = 10 * ten_to k

length-digits_of : (fuel k n : ℕ) → n < ten_to (suc k) → length (digits_of fuel n) ≤ suc k
unfolding digits_of
length-digits_of zero k n h = omega arith
length-digits_of (suc fuel) zero n h = rw (digits_of_one fuel n (ground arith)) (omega arith)
length-digits_of (suc fuel) (suc k) n h = elim (Bool-cases (ltb n 10)) [
  | inl e ↦ rw (digits_of_one fuel n e) (omega arith)
  | inr e ↦ rw (digits_of_last fuel n e) (
      omega (
        arith,
        length-append (digits_of fuel (n / 10)) ((b'0' + n % 10) ∷ []),
        length-digits_of fuel k (n / 10) (omega arith),
      ))
]

-- A number below a power of ten prints within so many digits.
pub length-str_nat : (k n : ℕ) → n < ten_to (suc k) → length (str_nat n) ≤ suc k
unfolding str_nat
length-str_nat k n h = length-digits_of (suc n) k n h
