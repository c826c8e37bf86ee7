-- ===== src/Numerals/Xor.antt =====
-- `bit_xor` at variables: it is taken back by itself, and stays within the width of its arguments.
use Prim.Native.Nat.{bit_xor, bit_xor-bitwise, digits, differ}
use ebdental_api.Prelude.{
  ℕ, zero, suc, ◌+◌, ◌-◌, ◌*◌, ◌/◌, ◌%◌, ◌≤◌, ◌<◌, ◌≡◌, refl, sym, ap, ◌∙◌, arith,
}

abbrev xor_rounds : ℕ → ℕ → ℕ → ℕ
xor_rounds rounds a b = digits (λ b. b) differ rounds a b

xor_rounds-zero : (rounds b : ℕ) → xor_rounds rounds 0 b ≡ b
xor_rounds-zero zero b = refl
xor_rounds-zero (suc rounds) b = refl

-- Rounds beyond the first number's digits change nothing.
xor_rounds_spare :
    (rounds spare a b : ℕ) → a ≤ rounds → xor_rounds (rounds + spare) a b ≡ xor_rounds rounds a b
xor_rounds_spare rounds spare zero b h =
    xor_rounds-zero (rounds + spare) b ∙ sym (xor_rounds-zero rounds b)
xor_rounds_spare zero spare (suc a) b h = absurd (omega arith)
xor_rounds_spare (suc rounds) spare (suc a) b h =
    let more : suc rounds + spare ≡ suc (rounds + spare) = omega arith in
    rw more (rw (xor_rounds_spare rounds spare (suc a / 2) (b / 2) (omega arith)) refl)

xor_rounds-bit_xor : (rounds a b : ℕ) → a ≤ rounds → xor_rounds rounds a b ≡ bit_xor a b
xor_rounds-bit_xor rounds a b h =
    let whole : a + (rounds - a) ≡ rounds = omega arith in
    ap (λ n. xor_rounds n a b) (sym whole)
    ∙ xor_rounds_spare a (rounds - a) a b (omega arith)
    ∙ sym (bit_xor-bitwise a b)

zero-bit_xor : (b : ℕ) → bit_xor 0 b ≡ b
zero-bit_xor b = bit_xor-bitwise 0 b

-- The lowest digit apart.
bit_xor_low : (a b : ℕ) → bit_xor a b ≡ bit_xor (a / 2) (b / 2) * 2 + differ (a % 2) (b % 2)
bit_xor_low zero b = omega (arith, zero-bit_xor b, zero-bit_xor (b / 2))
bit_xor_low (suc a) b =
    let upper = xor_rounds-bit_xor a (suc a / 2) (b / 2) (omega arith) in
    bit_xor-bitwise (suc a) b ∙ ap (λ n. n * 2 + differ (suc a % 2) (b % 2)) upper

differ-lt : (x y : ℕ) → x < 2 → y < 2 → differ x y < 2
differ-lt zero y p q = q
differ-lt (suc zero) zero p q = omega arith
differ-lt (suc zero) (suc zero) p q = omega arith
differ-lt (suc zero) (suc (suc y)) p q = absurd (omega arith)
differ-lt (suc (suc x)) y p q = absurd (omega arith)

differ_back : (x y : ℕ) → x < 2 → y < 2 → differ (differ x y) y ≡ x
differ_back zero zero p q = refl
differ_back zero (suc zero) p q = refl
differ_back (suc zero) zero p q = refl
differ_back (suc zero) (suc zero) p q = refl
differ_back zero (suc (suc y)) p q = absurd (omega arith)
differ_back (suc zero) (suc (suc y)) p q = absurd (omega arith)
differ_back (suc (suc x)) y p q = absurd (omega arith)

differ_comm : (x y : ℕ) → x < 2 → y < 2 → differ x y ≡ differ y x
differ_comm zero zero p q = refl
differ_comm zero (suc zero) p q = refl
differ_comm (suc zero) zero p q = refl
differ_comm (suc zero) (suc zero) p q = refl
differ_comm zero (suc (suc y)) p q = absurd (omega arith)
differ_comm (suc zero) (suc (suc y)) p q = absurd (omega arith)
differ_comm (suc (suc x)) y p q = absurd (omega arith)

bit_xor_halves :
    (a b : ℕ)
    → (bit_xor a b / 2 ≡ bit_xor (a / 2) (b / 2)) × (bit_xor a b % 2 ≡ differ (a % 2) (b % 2))
bit_xor_halves a b =
    let small = differ-lt (a % 2) (b % 2) (omega arith) (omega arith) in
    omega (arith, bit_xor_low a b, small)

back_step :
    (a b : ℕ) → bit_xor (bit_xor (a / 2) (b / 2)) (b / 2) ≡ a / 2 → bit_xor (bit_xor a b) b ≡ a
back_step a b ih =
    let low = differ_back (a % 2) (b % 2) (omega arith) (omega arith) in
    bit_xor_low (bit_xor a b) b
    ∙ rw ((bit_xor_halves a b).0, (bit_xor_halves a b).1) (omega (arith, ih, low))

comm_step :
    (a b : ℕ) → bit_xor (a / 2) (b / 2) ≡ bit_xor (b / 2) (a / 2) → bit_xor a b ≡ bit_xor b a
comm_step a b ih = omega (
  arith,
  bit_xor_low a b,
  bit_xor_low b a,
  differ_comm (a % 2) (b % 2) (omega arith) (omega arith),
  ih,
)

back_below : (n a b : ℕ) → a + b ≤ n → bit_xor (bit_xor a b) b ≡ a
back_below zero zero zero h = refl
back_below zero (suc a) b h = absurd (omega arith)
back_below zero zero (suc b) h = absurd (omega arith)
back_below (suc n) zero zero h = refl
back_below (suc n) (suc a) b h =
    back_step (suc a) b (back_below n (suc a / 2) (b / 2) (omega arith))
back_below (suc n) zero (suc b) h =
    back_step zero (suc b) (back_below n (zero / 2) (suc b / 2) (omega arith))

pub bit_xor_back : (a b : ℕ) → bit_xor (bit_xor a b) b ≡ a
bit_xor_back a b = back_below (a + b) a b (omega arith)

comm_below : (n a b : ℕ) → a + b ≤ n → bit_xor a b ≡ bit_xor b a
comm_below zero zero zero h = refl
comm_below zero (suc a) b h = absurd (omega arith)
comm_below zero zero (suc b) h = absurd (omega arith)
comm_below (suc n) zero zero h = refl
comm_below (suc n) (suc a) b h =
    comm_step (suc a) b (comm_below n (suc a / 2) (b / 2) (omega arith))
comm_below (suc n) zero (suc b) h =
    comm_step zero (suc b) (comm_below n (zero / 2) (suc b / 2) (omega arith))

pub bit_xor_comm : (a b : ℕ) → bit_xor a b ≡ bit_xor b a
bit_xor_comm a b = comm_below (a + b) a b (omega arith)

abbrev pub two_to : ℕ → ℕ
two_to zero = 1
two_to (suc w) = 2 * two_to w

pub bit_xor-lt : (w a b : ℕ) → a < two_to w → b < two_to w → bit_xor a b < two_to w
bit_xor-lt zero zero zero p q = omega (arith, zero-bit_xor 0)
bit_xor-lt zero (suc a) b p q = absurd (omega arith)
bit_xor-lt zero zero (suc b) p q = absurd (omega arith)
bit_xor-lt (suc w) a b p q =
    let rest = bit_xor-lt w (a / 2) (b / 2) (omega arith) (omega arith) in
    let small = differ-lt (a % 2) (b % 2) (omega arith) (omega arith) in
    omega (arith, bit_xor_low a b, rest, small)
