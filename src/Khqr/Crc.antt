-- ===== src/Khqr/Crc.antt =====
-- The checksum of app/services/khqr.py: it is four characters of 16 bits, and no single wrong
-- character leaves it as it was.
use Prim.Native.Nat.{bit_xor}
use ebdental_api.Prelude.{
  Text, ℕ, zero, suc, ◌+◌, ◌*◌, ◌/◌, ◌%◌, ◌<◌, true, List, [], ◌∷◌, ◌++◌, ◌≡◌, ◌≢◌, refl, sym, ap,
  ◌∙◌, arith, inl, inr, All, All-append, Bool-cases, lt→ltb, ltb, ◌==◌, ==_iff, if◌then◌else◌,
}
use mathlib.Core.List.{append_assoc}
use ebdental_api.Numerals.Xor.{bit_xor_back, bit_xor_comm, bit_xor-lt}
use ebdental_api.Numerals.ReadBack.{every_below, every_below-at}
use ebdental_api.Khqr.{
  utf8_char, utf8, crc_round, crc_rounds, crc_bytes, hex_digit, hex4, crc16_ccitt,
}

-- What undoes a round: the lowest bit tells which branch was taken.
abbrev round_back : ℕ → ℕ
round_back y = if y % 2 == 1 then bit_xor y 0x1021 / 2 + 0x8000 else y / 2

round_table : every_below (λ c. round_back (crc_round c) == c) 0x10000 ≡ true
unfolding every_below crc_round
round_table = refl

crc_round-inj : (a b : ℕ) → a < 0x10000 → b < 0x10000 → crc_round a ≡ crc_round b → a ≡ b
crc_round-inj a b p q e =
    let back_a = (==_iff _ a).0 (every_below-at _ 0x10000 p round_table) in
    let back_b = (==_iff _ b).0 (every_below-at _ 0x10000 q round_table) in
    sym back_a ∙ ap round_back e ∙ back_b

crc_round-lt : (c : ℕ) → crc_round c < 0x10000
unfolding crc_round
crc_round-lt c = omega arith

crc_rounds-lt : (n c : ℕ) → c < 0x10000 → crc_rounds n c < 0x10000
unfolding crc_rounds
crc_rounds-lt zero c h = h
crc_rounds-lt (suc n) c h = crc_rounds-lt n (crc_round c) (crc_round-lt c)

crc_rounds-inj : (n a b : ℕ) → a < 0x10000 → b < 0x10000 → crc_rounds n a ≡ crc_rounds n b → a ≡ b
unfolding crc_rounds
crc_rounds-inj zero a b p q e = e
crc_rounds-inj (suc n) a b p q e =
    crc_round-inj a b p q
      (crc_rounds-inj n (crc_round a) (crc_round b) (crc_round-lt a) (crc_round-lt b) e)

bit_xor-inj : (a b k : ℕ) → bit_xor a k ≡ bit_xor b k → a ≡ b
bit_xor-inj a b k e = sym (bit_xor_back a k) ∙ ap (λ x. bit_xor x k) e ∙ bit_xor_back b k

-- The register and a byte at its upper end.
abbrev fed : ℕ → ℕ → ℕ
fed crc byte = bit_xor crc (byte * 256)

fed-lt : (crc byte : ℕ) → crc < 0x10000 → byte < 256 → fed crc byte < 0x10000
fed-lt crc byte p q = bit_xor-lt 16 crc (byte * 256) p (omega arith)

abbrev AreBytes : List ℕ → Type 0
AreBytes = All (λ b. b < 256)

pub crc_bytes-lt : (crc : ℕ) (s : List ℕ) → crc < 0x10000 → AreBytes s → crc_bytes crc s < 0x10000
unfolding crc_bytes
crc_bytes-lt crc [] p a = p
crc_bytes-lt crc (b ∷ s) p (q, a) =
    crc_bytes-lt (crc_rounds 8 (fed crc b)) s (crc_rounds-lt 8 _ (fed-lt crc b p q)) a

-- The same bytes after two different registers leave two different registers.
crc_bytes-inj :
    (a b : ℕ) (s : List ℕ)
    → a < 0x10000
    → b < 0x10000
    → AreBytes s
    → crc_bytes a s ≡ crc_bytes b s
    → a ≡ b
unfolding crc_bytes
crc_bytes-inj a b [] p q h e = e
crc_bytes-inj a b (x ∷ s) p q (byte, h) e = bit_xor-inj a b (x * 256) (
    crc_rounds-inj 8 _ _ (fed-lt a x p byte) (fed-lt b x q byte) (
      crc_bytes-inj (crc_rounds 8 (fed a x)) (crc_rounds 8 (fed b x)) s
        (crc_rounds-lt 8 _ (fed-lt a x p byte)) (crc_rounds-lt 8 _ (fed-lt b x q byte)) h e))

-- Two bytes at the same place, between the same bytes.
crc_bytes-one_wrong :
    (crc x y : ℕ) (before after : List ℕ)
    → crc < 0x10000
    → AreBytes before
    → x < 256
    → y < 256
    → AreBytes after
    → crc_bytes crc (before ++ x ∷ after) ≡ crc_bytes crc (before ++ y ∷ after)
    → x ≡ y
unfolding crc_bytes
crc_bytes-one_wrong crc x y [] after p a hx hy b e =
    let same = crc_rounds-inj 8 _ _ (fed-lt crc x p hx) (fed-lt crc y p hy) (
      crc_bytes-inj _ _ after (crc_rounds-lt 8 _ (fed-lt crc x p hx))
        (crc_rounds-lt 8 _ (fed-lt crc y p hy)) b e) in
    let shifted : x * 256 ≡ y * 256 =
      bit_xor-inj (x * 256) (y * 256) crc
        (bit_xor_comm (x * 256) crc ∙ same ∙ bit_xor_comm crc (y * 256)) in
    omega (arith, shifted)
crc_bytes-one_wrong crc x y (c ∷ before) after p (q, a) hx hy b e =
    crc_bytes-one_wrong (crc_rounds 8 (fed crc c)) x y before after
      (crc_rounds-lt 8 _ (fed-lt crc c p q)) a hx hy b e

-- The texts: code points of Unicode.
abbrev pub IsUnicode : Text → Type 0
IsUnicode = All (λ c. c < 0x110000)

AreBytes-append : (s t : List ℕ) → AreBytes s → AreBytes t → AreBytes (s ++ t)
AreBytes-append s t a b = All-append (λ c. c < 256) s t a b

utf8_char-AreBytes : (c : ℕ) → c < 0x110000 → AreBytes (utf8_char c)
utf8_char-AreBytes c h = elim (Bool-cases (ltb c 0x80)) [
  | inl e ↦ rw e (ground arith, tt)
  | inr e ↦ rw e (elim (Bool-cases (ltb c 0x800)) [
    | inl f ↦ rw f (ground arith, (ground arith, tt))
    | inr f ↦ rw f (elim (Bool-cases (ltb c 0x10000)) [
      | inl g ↦ rw g (ground arith, (ground arith, (ground arith, tt)))
      | inr g ↦ rw g (ground arith, (ground arith, (ground arith, (ground arith, tt))))
    ])
  ])
]

utf8-AreBytes : (s : Text) → IsUnicode s → AreBytes (utf8 s)
unfolding utf8
utf8-AreBytes [] h = tt
utf8-AreBytes (c ∷ s) (a, h) =
    AreBytes-append (utf8_char c) (utf8 s) (utf8_char-AreBytes c a) (utf8-AreBytes s h)

utf8-append : (s t : Text) → utf8 (s ++ t) ≡ utf8 s ++ utf8 t
unfolding utf8
utf8-append [] t = refl
utf8-append (c ∷ s) t =
    ap (λ r. utf8_char c ++ r) (utf8-append s t)
    ∙ sym (append_assoc (utf8_char c) (utf8 s) (utf8 t))

one_byte : (c : ℕ) → c < 0x80 → utf8_char c ≡ c ∷ []
one_byte c h = rw (lt→ltb c 0x80 h) refl

utf8_ascii : (c : ℕ) (s : Text) → c < 0x80 → utf8 (c ∷ s) ≡ c ∷ utf8 s
unfolding utf8
utf8_ascii c s h = ap (λ r. r ++ utf8 s) (one_byte c h)

cons-inj : {a b : ℕ} {s t : Text} → a ∷ s ≡ b ∷ t → (a ≡ b) × (s ≡ t)
cons-inj h = (cc, cc)

hex_digit-inj : (a b : ℕ) → a < 16 → b < 16 → hex_digit a ≡ hex_digit b → a ≡ b
hex_digit-inj a b p q e = ground arith

hex4-inj : (a b : ℕ) → a < 0x10000 → b < 0x10000 → hex4 a ≡ hex4 b → a ≡ b
hex4-inj a b p q e =
    let d3 = hex_digit-inj (a / 4096) (b / 4096) (omega arith) (omega arith) (cons-inj e).0 in
    let e2 = (cons-inj e).1 in
    let d2 =
      hex_digit-inj (a / 256 % 16) (b / 256 % 16) (omega arith) (omega arith) (cons-inj e2).0 in
    let e1 = (cons-inj e2).1 in
    let d1 =
      hex_digit-inj (a / 16 % 16) (b / 16 % 16) (omega arith) (omega arith) (cons-inj e1).0 in
    let d0 =
      hex_digit-inj (a % 16) (b % 16) (omega arith) (omega arith) (cons-inj (cons-inj e1).1).0 in
    omega (arith, d0, d1, d2, d3)

-- The checksum tells apart any two texts of Unicode code points that differ in one ASCII character,
-- wherever it stands: a payload in which one such character is wrong does not match the checksum of
-- the right one.
pub crc16_ccitt-one_wrong :
    (before after : Text) (x y : ℕ)
    → IsUnicode before
    → IsUnicode after
    → x < 0x80
    → y < 0x80
    → x ≢ y
    → crc16_ccitt (before ++ x ∷ after) ≢ crc16_ccitt (before ++ y ∷ after)
unfolding crc16_ccitt
crc16_ccitt-one_wrong before after x y hb ha hx hy differ e =
    let bytes = utf8-AreBytes before hb in
    let rest = utf8-AreBytes after ha in
    let ex = utf8-append before (x ∷ after) ∙ ap (λ r. utf8 before ++ r) (utf8_ascii x after hx) in
    let ey = utf8-append before (y ∷ after) ∙ ap (λ r. utf8 before ++ r) (utf8_ascii y after hy) in
    let all_x : AreBytes (utf8 before ++ x ∷ utf8 after) =
      AreBytes-append (utf8 before) _ bytes (omega (arith, hx), rest) in
    let all_y : AreBytes (utf8 before ++ y ∷ utf8 after) =
      AreBytes-append (utf8 before) _ bytes (omega (arith, hy), rest) in
    let e' =
      ap (λ s. hex4 (crc_bytes 0xffff s)) (sym ex) ∙ e ∙ ap (λ s. hex4 (crc_bytes 0xffff s)) ey in
    differ (
      crc_bytes-one_wrong 0xffff x y (utf8 before) (utf8 after) (omega arith) bytes
        (omega (arith, hx)) (omega (arith, hy)) rest
        (hex4-inj _ _ (crc_bytes-lt 0xffff _ (omega arith) all_x)
          (crc_bytes-lt 0xffff _ (omega arith) all_y) e'))
