-- ===== src/RateLimit/Order.antt =====
-- What every record that the limiter keeps satisfies: its failures are in order of time, none of
-- them is later than now, and there are fewer of them than lock the pair out.
use ebdental_api.Prelude.{
  Text, sym, ◌∙◌, ◌⊎◌, Option-cases, ℕ, ◌+◌, ◌≤◌, ◌<◌, Bool, true, some, List, [], ◌∷◌, ◌++◌, ◌≡◌,
  refl, inl, inr, arith, length, All, All-append, keep_if, ltb, leb, Bool-cases, value_or,
}
use ebdental_api.RateLimit.{
  Attempts, Key, State, key_eq, no_attempts, record_of, put_record, drop_record, last_before, prune,
  prune_threshold, count_failure, window, max_attempts, record_login_failure, record_login_success,
  login_key, Request,
}
use ebdental_api.RateLimit.Records.{
  Unique, unless_stale, record_of-put_record, record_of-drop_record, record_of-keep_fresh,
  put_record-Unique, drop_record-Unique, keep_fresh-Unique,
}

abbrev pub UpTo : ℕ → List ℕ → Type 0
UpTo now [] = Unit
UpTo now (t ∷ ts) = All (λ u. t ≤ u) ts × (t ≤ now) × UpTo now ts

pub UpTo-mono : (now later : ℕ) (ts : List ℕ) → now ≤ later → UpTo now ts → UpTo later ts
UpTo-mono now later [] h u = tt
UpTo-mono now later (t ∷ ts) h (a, b, u) = (a, omega arith, UpTo-mono now later ts h u)

pub All-keep_if {ℓ} :
    (P : ℕ → Type ℓ) (p : ℕ → Bool) (ts : List ℕ) → All P ts → All P (keep_if p ts)
All-keep_if P p [] a = tt
All-keep_if P p (t ∷ ts) (a, b) = elim (Bool-cases (p t)) [
  | inl e ↦ rw e (a, All-keep_if P p ts b)
  | inr e ↦ rw e (All-keep_if P p ts b)
]

pub UpTo-keep_if : (now : ℕ) (p : ℕ → Bool) (ts : List ℕ) → UpTo now ts → UpTo now (keep_if p ts)
UpTo-keep_if now p [] u = tt
UpTo-keep_if now p (t ∷ ts) (a, b, u) = elim (Bool-cases (p t)) [
  | inl e ↦ rw e (All-keep_if _ p ts a, b, UpTo-keep_if now p ts u)
  | inr e ↦ rw e (UpTo-keep_if now p ts u)
]

pub UpTo-append : (now : ℕ) (ts : List ℕ) → UpTo now ts → UpTo now (ts ++ (now ∷ []))
UpTo-append now [] u = (tt, omega arith, tt)
UpTo-append now (t ∷ ts) (a, b, u) = (All-append _ ts _ a (b, tt), b, UpTo-append now ts u)

-- If the last failure is out of the window, all are.
pub last_before-All :
    (now upto : ℕ) (ts : List ℕ)
    → UpTo upto ts
    → last_before now ts ≡ true
    → All (λ t. t + window < now) ts
unfolding last_before
last_before-All now upto [] u h = tt
last_before-All now upto (t ∷ []) u h = (ground arith, tt)
last_before-All now upto (t ∷ v ∷ ts) (a, b, u) h =
    let rest = last_before-All now upto (v ∷ ts) u h in (omega (arith, rest.0, a.0), rest)

pub record IsKept (now : ℕ) (r : Attempts) : Type 0 where
  pub in_order : UpTo now r.timestamps
  pub few : length r.timestamps < max_attempts

pub no_attempts-IsKept : (now : ℕ) → IsKept now no_attempts
no_attempts-IsKept now = record { in_order = tt; few = omega arith }

pub count_failure-IsKept :
    (now : ℕ) (r : Attempts) → IsKept now r → IsKept now (count_failure now r)
unfolding count_failure
count_failure-IsKept now r kept =
    let recent = keep_if (λ t. ltb now (t + window)) r.timestamps ++ (now ∷ []) in
    elim (Bool-cases (leb max_attempts (length recent))) [
      | inl e ↦ rw e (record { in_order = tt; few = omega arith })
      | inr e ↦ rw e (record {
        in_order = UpTo-append now _ (UpTo-keep_if now _ r.timestamps kept.in_order);
        few = ground arith;
      })
    ]

pub record IsTidy (now : ℕ) (s : State) : Type 0 where
  pub unique : Unique s
  pub kept : (k : Key) (r : Attempts) → record_of k s ≡ some r → IsKept now r

-- The record that a failure starts from.
abbrev pub attempts_of : Key → State → Attempts
attempts_of k s = value_or (record_of k s) no_attempts

pub empty-IsTidy : (now : ℕ) → IsTidy now []
unfolding record_of
empty-IsTidy now = record { unique = tt; kept = λ k r e. ground arith }

pub attempts_of-IsKept :
    (now : ℕ) (k : Key) (s : State) → IsTidy now s → IsKept now (attempts_of k s)
attempts_of-IsKept now k s tidy = elim (Option-cases (record_of k s)) [
  | inl e ↦ rw e (no_attempts-IsKept now)
  | inr (r, e) ↦ rw e (tidy.kept k r e)
]

pub IsTidy-later : (now later : ℕ) (s : State) → now ≤ later → IsTidy now s → IsTidy later s
IsTidy-later now later s h tidy = record {
  unique = tidy.unique;
  kept = λ k r e. record {
    in_order = UpTo-mono now later _ h (tidy.kept k r e).in_order;
    few = (tidy.kept k r e).few;
  };
}

pub put_record-IsTidy :
    (now : ℕ) (k : Key) (r : Attempts) (s : State)
    → IsKept now r
    → IsTidy now s
    → IsTidy now (put_record k r s)
put_record-IsTidy now k r s h tidy = record {
  unique = put_record-Unique k r s tidy.unique;
  kept = λ j q e. elim (Bool-cases (key_eq k j)) [
    | inl same ↦ let e' : r ≡ q = ground (arith, record_of-put_record j k r s) in rw (← e') h
    | inr other ↦ tidy.kept j q (ground (arith, record_of-put_record j k r s))
  ];
}

pub drop_record-IsTidy :
    (now : ℕ) (k : Key) (s : State) → IsTidy now s → IsTidy now (drop_record k s)
drop_record-IsTidy now k s tidy = record {
  unique = drop_record-Unique k s tidy.unique;
  kept = λ j q e. tidy.kept j q (ground (arith, record_of-drop_record j k s tidy.unique));
}

-- What is left of a record after the housekeeping: the record, or nothing if it was stale.
pub record_of-prune :
    (now : ℕ) (j : Key) (s : State)
    → Unique s
    → (record_of j (prune now s) ≡ record_of j s)
      ⊎ (record_of j (prune now s) ≡ unless_stale now (record_of j s))
unfolding prune
record_of-prune now j s u = elim (Bool-cases (ltb (length s) prune_threshold)) [
  | inl e ↦ rw e (inl refl)
  | inr e ↦ rw e (inr (record_of-keep_fresh now j s u))
]

kept_before :
    (now : ℕ) (k : Key) (s : State) (r : Attempts)
    → unless_stale now (record_of k s) ≡ some r
    → record_of k s ≡ some r
kept_before now k s r h = elim (Option-cases (record_of k s)) [
  | inl e ↦ ground arith
  | inr (q, e) ↦ ground arith
]

pub prune-IsTidy : (now : ℕ) (s : State) → IsTidy now s → IsTidy now (prune now s)
unfolding prune
prune-IsTidy now s tidy = elim (Bool-cases (ltb (length s) prune_threshold)) [
  | inl e ↦ rw e tidy
  | inr e ↦ rw e (record {
    unique = keep_fresh-Unique now s tidy.unique;
    kept = λ k r h.
        tidy.kept k r (kept_before now k s r (sym (record_of-keep_fresh now k s tidy.unique) ∙ h));
  })
]

module _ (lower : Text → Text) where
  pub record_login_failure-IsTidy :
      (now : ℕ) (request : Request) (identifier : Text) (s : State)
      → IsTidy now s
      → IsTidy now (record_login_failure lower now request identifier s)
  unfolding record_login_failure
  record_login_failure-IsTidy now request identifier s tidy =
      let key = login_key lower request identifier in
      prune-IsTidy now _ (
        put_record-IsTidy now key _ s
          (count_failure-IsKept now _ (attempts_of-IsKept now key s tidy)) tidy)

  pub record_login_success-IsTidy :
      (now : ℕ) (request : Request) (identifier : Text) (s : State)
      → IsTidy now s
      → IsTidy now (record_login_success lower request identifier s)
  unfolding record_login_success
  record_login_success-IsTidy now request identifier s tidy = drop_record-IsTidy now _ s tidy
