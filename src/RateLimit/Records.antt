-- ===== src/RateLimit/Records.antt =====
-- The dict of app/core/ratelimit.py: what `_attempts.get` finds after each write.
use ebdental_api.Prelude.{
  ℕ, true, Option, none, some, [], ◌∷◌, ◌≡◌, refl, ap, ◌∙◌, inl, inr, arith, if◌then◌else◌,
  text_eq_refl, text_eq→≡, Bool-cases,
}
use ebdental_api.RateLimit.{
  Attempts, Key, State, key_eq, record_of, put_record, drop_record, is_stale, keep_fresh,
}

pub key_eq_refl : (k : Key) → key_eq k k ≡ true
unfolding key_eq
key_eq_refl k = rw (text_eq_refl k.0, text_eq_refl k.1)

pub key_eq→≡ : (j k : Key) → key_eq j k ≡ true → j ≡ k
unfolding key_eq
key_eq→≡ (a, b) (c, d) h = ground (arith, text_eq→≡ a c, text_eq→≡ b d)

-- No pair has two records.
abbrev pub Unique : State → Type 0
Unique [] = Unit
Unique ((k, r) ∷ s) = (record_of k s ≡ none) × Unique s

pub record_of-put_record :
    (j k : Key) (r : Attempts) (s : State)
    → record_of j (put_record k r s) ≡ (if key_eq k j then some r else record_of j s)
unfolding record_of put_record
record_of-put_record j k r [] = refl
record_of-put_record j k r ((i, old) ∷ s) = elim (Bool-cases (key_eq i k)) [
  | inl e ↦ ground (arith, key_eq→≡ i k e)
  | inr e ↦ ground (arith, record_of-put_record j k r s, key_eq→≡ k j, key_eq→≡ i j, key_eq_refl k)
]

pub put_record-Unique : (k : Key) (r : Attempts) (s : State) → Unique s → Unique (put_record k r s)
unfolding record_of put_record
put_record-Unique k r [] u = (refl, tt)
put_record-Unique k r ((i, old) ∷ s) (absent, u) = elim (Bool-cases (key_eq i k)) [
  | inl e ↦ rw e (absent, u)
  | inr e ↦ rw e (
    record_of-put_record i k r s ∙ ground (arith, key_eq→≡ k i, key_eq_refl k),
    put_record-Unique k r s u,
  )
]

pub record_of-drop_record :
    (j k : Key) (s : State)
    → Unique s
    → record_of j (drop_record k s) ≡ (if key_eq k j then none else record_of j s)
unfolding record_of drop_record
record_of-drop_record j k [] u = ground arith
record_of-drop_record j k ((i, old) ∷ s) (absent, u) =
    ground (
      arith,
      record_of-drop_record j k s u,
      key_eq→≡ i k,
      key_eq→≡ k j,
      key_eq→≡ i j,
      key_eq_refl k,
    )

-- What pruning leaves of the record of one pair.
abbrev pub unless_stale : ℕ → Option Attempts → Option Attempts
unless_stale now none = none
unless_stale now (some r) = if is_stale now r then none else some r

pub record_of-keep_fresh :
    (now : ℕ) (j : Key) (s : State)
    → Unique s
    → record_of j (keep_fresh now s) ≡ unless_stale now (record_of j s)
unfolding record_of keep_fresh
record_of-keep_fresh now j [] u = refl
record_of-keep_fresh now j ((i, r) ∷ s) (absent, u) = elim (Bool-cases (is_stale now r)) [
  | inl e ↦ ground (arith, record_of-keep_fresh now j s u, key_eq→≡ i j)
  | inr e ↦ ground (arith, record_of-keep_fresh now j s u, key_eq→≡ i j)
]

pub keep_fresh-Unique : (now : ℕ) (s : State) → Unique s → Unique (keep_fresh now s)
unfolding keep_fresh
keep_fresh-Unique now [] u = tt
keep_fresh-Unique now ((i, r) ∷ s) (absent, u) = elim (Bool-cases (is_stale now r)) [
  | inl e ↦ rw e (keep_fresh-Unique now s u)
  | inr e ↦
      rw e
        (record_of-keep_fresh now i s u ∙ ap (unless_stale now) absent, keep_fresh-Unique now s u)
]

pub drop_record-Unique : (k : Key) (s : State) → Unique s → Unique (drop_record k s)
unfolding drop_record
drop_record-Unique k [] u = tt
drop_record-Unique k ((i, r) ∷ s) (absent, u) = elim (Bool-cases (key_eq i k)) [
  | inl e ↦ rw e u
  | inr e ↦ rw e (record_of-drop_record i k s u ∙ ground arith, drop_record-Unique k s u)
]
