-- ===== src/Khqr/Ends.antt =====
-- Where `_parse_tlv`'s loop ends, and where it does not.
use ebdental_api.Prelude.{
  Text, ℕ, zero, suc, ◌+◌, ◌<◌, some, [], ◌∷◌, ◌≡◌, ◌≢◌, refl, sym, ap, ◌∙◌, inl, inr, arith,
  length, take, drop, All, leb, Bool-cases,
}
use ebdental_api.Prelude.Int.{ℤ, pos, negsuc, ◌+ℤ◌}
use ebdental_api.Numerals.{python_int}
use ebdental_api.Khqr.{
  Parsed, fields, value_error, stuck, prepend, slice, clip, parse_loop, parse_tlv,
}
use ebdental_api.Numerals.Signs.{NoMinus, python_int-NoMinus}
use ebdental_api.Khqr.Rounds.{slice_middle, parse_step_by, parse_step, parse_bad, parse_end}

python_int_minus_four : python_int (b'-' ∷ b'4' ∷ []) ≡ some (negsuc 3)
unfolding python_int
python_int_minus_four = refl

back_to_start : pos (0 + 4) +ℤ negsuc 3 ≡ pos 0
unfolding ◌+ℤ◌
back_to_start = refl

prepend-stuck : (f : Text × Text) (r : Parsed) → prepend f r ≡ stuck → r ≡ stuck
prepend-stuck f (fields fs) h = cc
prepend-stuck f value_error h = cc
prepend-stuck f stuck h = refl

All-take {ℓ} : (P : ℕ → Type ℓ) (n : ℕ) (s : Text) → All P s → All P (take n s)
All-take P zero s h = tt
All-take P (suc n) [] h = tt
All-take P (suc n) (c ∷ s) (a, b) = (a, All-take P n s b)

All-drop {ℓ} : (P : ℕ → Type ℓ) (n : ℕ) (s : Text) → All P s → All P (drop n s)
All-drop P zero s h = h
All-drop P (suc n) [] h = tt
All-drop P (suc n) (c ∷ s) (a, b) = All-drop P n s b

fields_not_stuck : fields [] ≢ stuck
fields_not_stuck h = cc

error_not_stuck : value_error ≢ stuck
error_not_stuck h = cc

slice-NoMinus : (lo hi : ℤ) (s : Text) → NoMinus s → NoMinus (slice lo hi s)
unfolding slice
slice-NoMinus lo hi s h = All-take _ _ _ (All-drop _ (clip (length s) lo) s h)

parse_loop-ends :
    (rounds n : ℕ) (s : Text)
    → NoMinus s
    → (0 < rounds) × (length s < n + rounds)
    → parse_loop rounds s (pos n) ≢ stuck
parse_loop-ends zero n s h fuel e = absurd (omega arith)
parse_loop-ends (suc rounds) n s h fuel e = elim (Bool-cases (leb (n + 4) (length s))) [
  | inr over ↦ absurd (fields_not_stuck (sym (parse_end rounds n s (ground arith)) ∙ e))
  | inl room ↦
      elim (python_int-NoMinus (slice (pos (n + 2)) (pos (n + 4)) s) (slice-NoMinus _ _ s h)) [
        | inl bad ↦ absurd (error_not_stuck (sym (parse_bad rounds n s (ground arith) bad) ∙ e))
        | inr (m, good) ↦
            parse_loop-ends rounds (n + 4 + m) s h (ground arith)
              (prepend-stuck _ _ (sym (parse_step rounds n m s (ground arith) good) ∙ e))
      ]
]

-- The loop can go back: from a field whose length reads -4 it goes to the same field again, so that
-- it has no end however many rounds it is given.
pub parse_loop-endless :
    (a b : ℕ) (rest : Text) (rounds : ℕ)
    → parse_loop rounds (a ∷ b ∷ b'-' ∷ b'4' ∷ rest) (pos 0) ≡ stuck
unfolding parse_loop
parse_loop-endless a b rest zero = refl
parse_loop-endless a b rest (suc rounds) =
    let s : Text = a ∷ b ∷ b'-' ∷ b'4' ∷ rest in
    let minus_four : python_int (slice (pos 2) (pos 4) s) ≡ some (negsuc 3) =
      ap python_int (slice_middle (a ∷ b ∷ []) (b'-' ∷ b'4' ∷ []) rest s 2 4 refl refl refl)
      ∙ python_int_minus_four in
    parse_step_by rounds 0 (negsuc 3) s (omega arith) minus_four
    ∙ rw back_to_start (rw (parse_loop-endless a b rest rounds) refl)

-- Termination: a payload without a minus sign is read to its end, or refused, within as many rounds
-- as it has characters.
pub parse_tlv-ends : (payload : Text) → NoMinus payload → parse_tlv payload ≢ stuck
unfolding parse_tlv
parse_tlv-ends payload h e = parse_loop-ends (suc (length payload)) 0 payload h (omega arith) e
