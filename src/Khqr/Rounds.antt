-- ===== src/Khqr/Rounds.antt =====
-- The rounds of `_parse_tlv`'s loop, one by one, and the slices that they take.
use ebdental_api.Prelude.{
  Text, ℕ, suc, ◌+◌, ◌-◌, ◌≤◌, ◌<◌, none, some, [], ◌∷◌, ◌++◌, ◌≡◌, refl, ap, ◌∙◌, arith, length,
  length-append, take, drop, le→leb, lt→not-leb,
}
use ebdental_api.Prelude.Int.{ℤ, pos, ◌+ℤ◌}
use ebdental_api.Numerals.{python_int}
use ebdental_api.Khqr.{fields, value_error, prepend, slice, clip, parse_loop}

pub pos_add : (a b : ℕ) → pos a +ℤ pos b ≡ pos (a + b)
unfolding ◌+ℤ◌
pos_add a b = ground arith

drop-append : (x y : Text) → drop (length x) (x ++ y) ≡ y
drop-append [] y = refl
drop-append (c ∷ x) y = drop-append x y

take-append : (x y : Text) → take (length x) (x ++ y) ≡ x
take-append [] y = refl
take-append (c ∷ x) y = ap (λ r. c ∷ r) (take-append x y)

clip_inside : (n k : ℕ) → k ≤ n → clip n (pos k) ≡ k
clip_inside n k h = ground arith

pub slice_middle :
    (x y z s : Text) (lo hi : ℕ)
    → s ≡ x ++ (y ++ z)
    → lo ≡ length x
    → hi ≡ length x + length y
    → slice (pos lo) (pos hi) s ≡ y
unfolding slice
slice_middle x y z s lo hi e a b =
    let total : length s ≡ length x + (length y + length z) =
      ap length e ∙ length-append x (y ++ z) ∙ ap (λ n. length x + n) (length-append y z) in
    rw
      (
        clip_inside (length s) lo (omega (arith, total)),
        clip_inside (length s) hi (omega (arith, total)),
        e,
        a,
        b,
        drop-append x (y ++ z),
      )
      (rw (let d : length x + length y - length x ≡ length y = omega arith in d) (take-append y z))

pub parse_step_by :
    (rounds n : ℕ) (z : ℤ) (s : Text)
    → n + 4 ≤ length s
    → python_int (slice (pos (n + 2)) (pos (n + 4)) s) ≡ some z
    → parse_loop (suc rounds) s (pos n)
      ≡ prepend
          (slice (pos n) (pos (n + 2)) s, slice (pos (n + 4)) (pos (n + 4) +ℤ z) s)
          (parse_loop rounds s (pos (n + 4) +ℤ z))
unfolding parse_loop
parse_step_by rounds n z s room len =
    rw (parse_loop, pos_add n 4, le→leb (n + 4) (length s) room)
      (rw (pos_add n 2, pos_add n 4, len) (rw (pos_add n 2, pos_add n 4) refl))

pub parse_step :
    (rounds n m : ℕ) (s : Text)
    → n + 4 ≤ length s
    → python_int (slice (pos (n + 2)) (pos (n + 4)) s) ≡ some (pos m)
    → parse_loop (suc rounds) s (pos n)
      ≡ prepend
          (slice (pos n) (pos (n + 2)) s, slice (pos (n + 4)) (pos (n + 4 + m)) s)
          (parse_loop rounds s (pos (n + 4 + m)))
parse_step rounds n m s room len =
    parse_step_by rounds n (pos m) s room len ∙ rw (pos_add (n + 4) m) refl

pub parse_bad :
    (rounds n : ℕ) (s : Text)
    → n + 4 ≤ length s
    → python_int (slice (pos (n + 2)) (pos (n + 4)) s) ≡ none
    → parse_loop (suc rounds) s (pos n) ≡ value_error
unfolding parse_loop
parse_bad rounds n s room bad =
    rw (parse_loop, pos_add n 4, le→leb (n + 4) (length s) room)
      (rw (pos_add n 2, pos_add n 4, bad) refl)

pub parse_end :
    (rounds n : ℕ) (s : Text) → length s < n + 4 → parse_loop (suc rounds) s (pos n) ≡ fields []
unfolding parse_loop
parse_end rounds n s h = rw (parse_loop, pos_add n 4) (rw (lt→not-leb (n + 4) (length s) h) refl)
