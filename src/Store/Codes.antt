-- ===== src/Store/Codes.antt =====
-- The loops of _generate_quote_code and _next_checkout_reference end, at a code that is free.
use ebdental_api.Prelude.{
  ℕ, zero, suc, ◌+◌, ◌≤◌, ◌<◌, ◌≡◌, ◌≢◌, refl, Bool, true, false, not, ◌||◌, Option, none, some,
  List, [], ◌∷◌, ◌++◌, map, arith, Text, ◌==◌, any, keep_if, length, length-map, text_eq, text_eq→≡,
  length-append, Bool-cases, inl, inr, ap, sym, ◌∙◌, rows, rows_below, with_row, Table,
}
use ebdental_api.Store.{
  Order, PendingCheckout, Store, Env, candidate, first_free, quote_code_taken, reference_taken,
  generate_quote_code, next_checkout_reference,
}

abbrev taken_in : List Text → Text → Bool
taken_in l c = any (λ (x : Text). text_eq x c) l

abbrev without : Text → List Text → List Text
without c l = keep_if (λ (x : Text). not (text_eq x c)) l

length-without-le : (c : Text) (l : List Text) → length (without c l) ≤ length l
length-without-le c [] = omega arith
length-without-le c (x ∷ l) = ground (arith, length-without-le c l)

length-without : (c : Text) (l : List Text) → taken_in l c ≡ true → length (without c l) < length l
length-without c [] h = cc
length-without c (x ∷ l) h = ground (arith, length-without c l, length-without-le c l)

taken_in-without : (c d : Text) (l : List Text) → c ≢ d → taken_in (without c l) d ≡ taken_in l d
taken_in-without c d [] h = refl
taken_in-without c d (x ∷ l) h = elim (Bool-cases (text_eq x c)) [
  | inl e ↦ elim (Bool-cases (text_eq x d)) [
    | inl f ↦ absurd (h (sym (text_eq→≡ x c e) ∙ text_eq→≡ x d f))
    | inr f ↦ ground (arith, taken_in-without c d l h)
  ]
  | inr e ↦ ground (arith, taken_in-without c d l h)
]

-- Python prints two different numbers differently.
abbrev pub IsApart : (ℕ → Text) → Type 0
IsApart print = (i j : ℕ) → print i ≡ print j → i ≡ j

abbrev pub PrintsApart : Env → Type 0
PrintsApart env = IsApart env.str_int

append-cancel : (a b c : Text) → a ++ b ≡ a ++ c → b ≡ c
append-cancel [] b c h = h
append-cancel (x ∷ a) b c h = append-cancel a b c (cc)

candidate_first : (env : Env) (i : ℕ) → (i == 1) ≡ true → candidate env i ≡ env.time_code
unfolding candidate
candidate_first env i h = ground arith

candidate_later :
    (env : Env) (i : ℕ) → (i == 1) ≡ false → candidate env i ≡ env.time_code ++ b'-' ∷ env.str_int i
unfolding candidate
candidate_later env i h = rw h refl

-- One round of the loop.
first_free_taken :
    (fuel : ℕ) (env : Env) (t : Text → Bool) (k : ℕ)
    → t (candidate env k) ≡ true
    → first_free (suc fuel) env t k ≡ first_free fuel env t (k + 1)
unfolding first_free
first_free_taken fuel env t k h = rw (h, first_free) refl

first_free_here :
    (fuel : ℕ) (env : Env) (t : Text → Bool) (k : ℕ)
    → t (candidate env k) ≡ false
    → first_free (suc fuel) env t k ≡ some (candidate env k)
unfolding first_free
first_free_here fuel env t k h = rw (h, first_free) refl

longer : (a : Text) (x : ℕ) (b : Text) → a ≢ a ++ x ∷ b
longer a x b h = omega (arith, ap length h, length-append a (x ∷ b))

cons-tail : (x y : ℕ) (a b : Text) → x ∷ a ≡ y ∷ b → a ≡ b
cons-tail x y a b h = cc

module _ (env : Env) (apart : PrintsApart env) where
  candidate_apart : (i j : ℕ) → i < j → 0 < i → candidate env i ≢ candidate env j
  candidate_apart i j h p e =
      let e' : candidate env i ≡ env.time_code ++ b'-' ∷ env.str_int j =
        e ∙ candidate_later env j (ground arith) in
      elim (Bool-cases (i == 1)) [
        | inl f ↦ longer env.time_code _ _ (sym (candidate_first env i f) ∙ e')
        | inr f ↦
            let printed : env.str_int i ≡ env.str_int j =
              cons-tail _ _ _ _
                (append-cancel env.time_code _ _ (sym (candidate_later env i f) ∙ e')) in
            absurd (omega (arith, apart i j printed))
      ]

  -- The search looks only at the candidates from `k` on.
  first_free_congr :
      (fuel : ℕ) (t u : Text → Bool) (k : ℕ)
      → ((j : ℕ) → k ≤ j → t (candidate env j) ≡ u (candidate env j))
      → first_free fuel env t k ≡ first_free fuel env u k
  unfolding first_free
  first_free_congr zero t u k h = refl
  first_free_congr (suc fuel) t u k h = elim (Bool-cases (u (candidate env k))) [
    | inl e ↦
        first_free_taken fuel env t k (h k (omega arith) ∙ e)
        ∙ first_free_congr fuel t u (k + 1) (λ j le. h j (omega arith))
        ∙ sym (first_free_taken fuel env u k e)
    | inr e ↦
        first_free_here fuel env t k (h k (omega arith) ∙ e) ∙ sym (first_free_here fuel env u k e)
  ]

  Finds : ℕ → (Text → Bool) → ℕ → Type 0
  Finds fuel t k =
      (j : ℕ) × (k ≤ j)
      × (first_free fuel env t k ≡ some (candidate env j))
      × (t (candidate env j) ≡ false)

  first_free_lem :
      (fuel : ℕ) (l : List Text) (k : ℕ) → 0 < k → length l < fuel → Finds fuel (taken_in l) k
  unfolding Finds
  first_free_lem zero l k p h = absurd (omega arith)
  first_free_lem (suc fuel) l k p h = elim (Bool-cases (taken_in l (candidate env k))) [
    | inl e ↦
        let l' = without (candidate env k) l in
        let same : (j : ℕ)
            → k + 1 ≤ j
            → taken_in l (candidate env j) ≡ taken_in l' (candidate env j) =
          λ j le. sym (taken_in-without _ _ l (candidate_apart k j (omega arith) p)) in
        let (j, le, found, free) =
          first_free_lem fuel l' (k + 1) (omega arith)
            (omega (arith, length-without (candidate env k) l e)) in
        (
          j,
          omega arith,
          first_free_taken fuel env (taken_in l) k e
              ∙ first_free_congr fuel (taken_in l) (taken_in l') (k + 1) same
              ∙ found,
          same j le ∙ free,
        )
    | inr e ↦ (k, omega arith, first_free_here fuel env (taken_in l) k e, e)
  ]

-- The texts in one column of a table.
module _ {A : Type 0} (f : A → Text) where
  column : ℕ → (ℕ → Option A) → List Text
  column n row = map (λ (r : ℕ × A). f r.1) (rows_below n row)

  with_row-le : (n : ℕ) (o : Option A) (l : List (ℕ × A)) → length (with_row n o l) ≤ length l + 1
  with_row-le n none l = omega arith
  with_row-le n (some a) l = omega arith

  length-rows_below : (n : ℕ) (row : ℕ → Option A) → length (rows_below n row) ≤ n
  length-rows_below zero row = omega arith
  length-rows_below (suc n) row =
      omega (arith, length-rows_below n row, with_row-le n (row n) (rows_below n row))

  any-map :
      (l : List (ℕ × A)) (c : Text)
      → any (λ (r : ℕ × A). text_eq (f r.1) c) l ≡ taken_in (map (λ (r : ℕ × A). f r.1) l) c
  any-map [] c = refl
  any-map (r ∷ l) c = ap (λ b. text_eq (f r.1) c || b) (any-map l c)

  free_code :
      (env : Env)
      → PrintsApart env
      → (t : Table A)
      → (c : Text) × (first_free
            (t.next + 1)
            env
            (λ d. any (λ (r : ℕ × A). text_eq (f r.1) d) (rows t))
            1
          ≡ some c)
        × (any (λ (r : ℕ × A). text_eq (f r.1) c) (rows t) ≡ false)
  unfolding Finds
  free_code env apart t =
      let l = map (λ (r : ℕ × A). f r.1) (rows t) in
      let (j, le, found, free) = first_free_lem env apart (t.next + 1) l 1 (omega arith) (
        omega
          (arith, length-map (rows t) (λ (r : ℕ × A). f r.1), length-rows_below t.next t.row)) in
      (
        candidate env j,
        first_free_congr env apart (t.next + 1) _ (taken_in l) 1 (λ i _. any-map (rows t) _)
            ∙ found,
        any-map (rows t) (candidate env j) ∙ free,
      )

-- Where printing tells numbers apart, the loop that makes up a quote code ends within one round more
-- than there are order ids, and its code is on no order.
pub generate_quote_code-free :
    (env : Env) (s : Store)
    → PrintsApart env
    → (c : Text) × (generate_quote_code env s ≡ some c) × (quote_code_taken s c ≡ false)
unfolding generate_quote_code
generate_quote_code-free env s apart = free_code (λ (o : Order). o.quote_code) env apart s.orders

-- Where printing tells numbers apart, the loop that makes up the reference of a checkout ends within one
-- round more than there are checkout ids, and its reference is on no checkout.
pub next_checkout_reference-free :
    (env : Env) (s : Store)
    → PrintsApart env
    → (c : Text) × (next_checkout_reference env s ≡ some c) × (reference_taken s c ≡ false)
unfolding next_checkout_reference
next_checkout_reference-free env s apart =
    free_code (λ (c : PendingCheckout). c.reference) env apart s.checkouts
