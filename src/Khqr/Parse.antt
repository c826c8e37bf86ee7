-- ===== src/Khqr/Parse.antt =====
-- `_parse_tlv` against `_tlv`.
use ebdental_api.Prelude.{
  Text, ℕ, zero, suc, ◌+◌, ◌-◌, ◌≤◌, ◌<◌, some, List, [], ◌∷◌, ◌++◌, ◌≡◌, ◌≢◌, refl, sym, ap, ◌∙◌,
  arith, length, length-append, take, drop, All,
}
use mathlib.Core.List.{append_assoc}
use ebdental_api.Prelude.Int.{pos}
use ebdental_api.Numerals.{two_digits, python_int}
use ebdental_api.Numerals.ReadBack.{length-two_digits, python_int-two_digits}
use ebdental_api.Khqr.{
  Parsed, fields, value_error, stuck, prepend, tlv, slice, clip, parse_loop, parse_tlv,
}
use ebdental_api.Khqr.Rounds.{slice_middle, parse_step, parse_end}
use ebdental_api.Khqr.Build.{tlvs}

-- A field as the standard has it: a tag of two characters, a value whose length has two digits.
abbrev pub IsField : Text × Text → Type 0
IsField (t, v) = (length t ≡ 2) × (length v ≤ 99)

-- One round, at a field of the standard's shape.
pub parse_loop-tlv :
    (rounds : ℕ) (t v rest p s : Text)
    → IsField (t, v)
    → s ≡ p ++ (tlv t v ++ rest)
    → parse_loop (suc rounds) s (pos (length p))
      ≡ prepend (t, v) (parse_loop rounds s (pos (length (p ++ tlv t v))))
unfolding tlv
parse_loop-tlv rounds t v rest p s (two, short) e =
    let d = two_digits (length v) in
    let n = length p in
    let m = length v in
    let two' : length d ≡ 2 = length-two_digits m (omega (arith, short)) in
    let e1 : s ≡ p ++ (t ++ (d ++ (v ++ rest))) =
      e
      ∙ ap (λ x. p ++ x)
          (append_assoc t (d ++ v) rest ∙ ap (λ x. t ++ x) (append_assoc d v rest)) in
    let total : length s ≡ n + (length t + (length d + (m + length rest))) =
      ap length e1
      ∙ length-append p _
      ∙ ap (λ k. n + k)
          (length-append t _
            ∙ ap (λ k. length t + k)
                (length-append d _ ∙ ap (λ k. length d + k) (length-append v _))) in
    let at_t : slice (pos n) (pos (n + 2)) s ≡ t =
      slice_middle p t _ s n (n + 2) e1 refl (omega (arith, two)) in
    let e2 : s ≡ (p ++ t) ++ (d ++ (v ++ rest)) = e1 ∙ sym (append_assoc p t _) in
    let at_d : slice (pos (n + 2)) (pos (n + 4)) s ≡ d =
      slice_middle (p ++ t) d _ s (n + 2) (n + 4) e2 (omega (arith, two, length-append p t))
        (omega (arith, two, two', length-append p t)) in
    let e3 : s ≡ ((p ++ t) ++ d) ++ (v ++ rest) = e2 ∙ sym (append_assoc (p ++ t) d _) in
    let l3 : n + 4 ≡ length ((p ++ t) ++ d) =
      omega (arith, two, two', length-append p t, length-append (p ++ t) d) in
    let at_v : slice (pos (n + 4)) (pos (n + 4 + m)) s ≡ v =
      slice_middle ((p ++ t) ++ d) v _ s (n + 4) (n + 4 + m) e3 l3 (omega (arith, l3)) in
    let l4 : n + 4 + m ≡ length (p ++ (t ++ (d ++ v))) = omega (
      arith,
      two,
      two',
      length-append p (t ++ (d ++ v)),
      length-append t (d ++ v),
      length-append d v,
    ) in
    parse_step rounds n m s (omega (arith, total, two, two'))
      (ap python_int at_d ∙ python_int-two_digits m (omega (arith, short)))
    ∙ rw (at_t, at_v, l4) refl

pub length-tlv_ge : (t v : Text) → length t ≡ 2 → 2 ≤ length (tlv t v)
unfolding tlv
length-tlv_ge t v two = omega (arith, two, length-append t (two_digits (length v) ++ v))

parse_loop-tlvs :
    (rounds : ℕ) (fs : List (Text × Text)) (p s : Text)
    → All IsField fs
    → length s < length p + rounds
    → s ≡ p ++ tlvs fs
    → parse_loop rounds s (pos (length p)) ≡ fields fs
unfolding tlvs
parse_loop-tlvs zero fs p s a h e = absurd (omega (arith, ap length e, length-append p (tlvs fs)))
parse_loop-tlvs (suc rounds) [] p s a h e =
    parse_end rounds (length p) s (omega (arith, ap length e, length-append p []))
parse_loop-tlvs (suc rounds) ((t, v) ∷ fs) p s (f, a) h e =
    parse_loop-tlv rounds t v (tlvs fs) p s f e
    ∙ ap (prepend (t, v)) (
        parse_loop-tlvs rounds fs (p ++ tlv t v) s a
          (omega (arith, h, length-append p (tlv t v), length-tlv_ge t v f.0))
          (e ∙ sym (append_assoc p (tlv t v) (tlvs fs))))

-- Round trip: fields whose tags have two characters and whose values have at most 99, written one
-- after the other, are read back as they were.
pub parse_tlv-tlvs : (fs : List (Text × Text)) → All IsField fs → parse_tlv (tlvs fs) ≡ fields fs
unfolding parse_tlv
parse_tlv-tlvs fs a = parse_loop-tlvs (suc (length (tlvs fs))) fs [] (tlvs fs) a (omega arith) refl

two_digits_108 : two_digits 108 ≡ b'1' ∷ b'0' ∷ b'8' ∷ []
unfolding two_digits
two_digits_108 = refl

python_int_ten : python_int (b'1' ∷ b'0' ∷ []) ≡ some (pos 10)
unfolding python_int
python_int_ten = refl

pub prepend-inj :
    (f g : Text × Text) (r : Parsed) (gs : List (Text × Text))
    → prepend f r ≡ fields (g ∷ gs)
    → (f ≡ g) × (r ≡ fields gs)
prepend-inj f g (fields fs) gs h = (cc, cc)
prepend-inj f g value_error gs h = cc
prepend-inj f g stuck gs h = cc

pub length-take : (n : ℕ) (s : Text) → length (take n s) ≤ n
length-take zero s = omega arith
length-take (suc n) [] = omega arith
length-take (suc n) (c ∷ s) = omega (arith, length-take n s)

length-slice : (lo m : ℕ) (s : Text) → length (slice (pos lo) (pos (lo + m)) s) ≤ m
unfolding slice
length-slice lo m s =
    let short =
      length-take (clip (length s) (pos (lo + m)) - clip (length s) (pos lo))
        (drop (clip (length s) (pos lo)) s) in
    ground (arith, short)

-- A value of 108 characters, which is written behind the three digits of its length, is taken for
-- one of ten.
pub tlv_too_long :
    (rounds : ℕ) (t v rest p s : Text) (gs : List (Text × Text))
    → length t ≡ 2
    → length v ≡ 108
    → s ≡ p ++ (tlv t v ++ rest)
    → parse_loop (suc rounds) s (pos (length p)) ≢ fields ((t, v) ∷ gs)
unfolding tlv
tlv_too_long rounds t v rest p s gs two long e h =
    let n = length p in
    let e1 : s ≡ p ++ (t ++ ((b'1' ∷ b'0' ∷ []) ++ (b'8' ∷ (v ++ rest)))) =
      e
      ∙ ap (λ x. p ++ x)
          (append_assoc t (two_digits (length v) ++ v) rest
            ∙ ap (λ x. t ++ ((x ++ v) ++ rest)) (ap two_digits long ∙ two_digits_108)) in
    let e2 = e1 ∙ sym (append_assoc p t _) in
    let at_d : slice (pos (n + 2)) (pos (n + 4)) s ≡ b'1' ∷ b'0' ∷ [] =
      slice_middle (p ++ t) (b'1' ∷ b'0' ∷ []) _ s (n + 2) (n + 4) e2
        (omega (arith, two, length-append p t)) (omega (arith, two, length-append p t)) in
    let room : n + 4 ≤ length s = omega (
      arith,
      ap length e2,
      length-append (p ++ t) (b'1' ∷ b'0' ∷ b'8' ∷ (v ++ rest)),
      length-append p t,
      two,
    ) in
    let read = sym (parse_step rounds n 10 s room (ap python_int at_d ∙ python_int_ten)) ∙ h in
    let value = (prepend-inj _ _ _ gs read).0 in
    absurd
      (omega (arith, length-slice (n + 4) 10 s, ap (λ (f : Text × Text). length f.1) value, long))
