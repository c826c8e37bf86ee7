-- ===== src/RateLimit/Refinement.antt =====
-- The limiter against its specification: one record for each pair, which is never thrown away and
-- which the attempts of other pairs do not touch.
use ebdental_api.Prelude.{
  Text, ℕ, ◌+◌, ◌≤◌, ◌<◌, true, List, [], ◌∷◌, ◌++◌, ◌≡◌, refl, sym, ◌∙◌, inl, inr, arith, length,
  All, keep_if, ltb, leb, if◌then◌else◌, Bool-cases, Option-cases,
}
use ebdental_api.Http.{ok}
use ebdental_api.RateLimit.{
  Attempts, Key, State, Request, key_eq, no_attempts, record_of, put_record, is_stale, prune,
  count_failure, verdict, window, max_attempts, login_key, check_login_allowed,
  record_login_failure, record_login_success,
}
use ebdental_api.RateLimit.Records.{key_eq→≡, record_of-put_record, record_of-drop_record}
use ebdental_api.RateLimit.Order.{
  last_before-All, IsKept, IsTidy, empty-IsTidy, attempts_of, record_of-prune, put_record-IsTidy,
  count_failure-IsKept, attempts_of-IsKept, IsTidy-later, record_login_failure-IsTidy,
  record_login_success-IsTidy,
}

-- What a handler tells the limiter, and when.
pub data Report : Type 0 where
  failed succeeded : ℕ → Request → Text → Report

abbrev pub moment : Report → ℕ
moment (failed now _ _) = now
moment (succeeded now _ _) = now

-- The clock does not go back.
abbrev pub Chronological : ℕ → List Report → Type 0
Chronological since [] = Unit
Chronological since (e ∷ es) = (since ≤ moment e) × Chronological (moment e) es

abbrev pub ends_at : ℕ → List Report → ℕ
ends_at since [] = since
ends_at since (e ∷ es) = ends_at (moment e) es

-- Two records that no later check or failure tells apart.
abbrev SameFrom : ℕ → Attempts → Attempts → Type 0
SameFrom now r q =
    (n : ℕ)
    → now ≤ n
    → (verdict n r ≡ verdict n q)
      × (keep_if (λ t. ltb n (t + window)) r.timestamps
          ≡ keep_if (λ t. ltb n (t + window)) q.timestamps)

SameFrom-refl : (now : ℕ) (r : Attempts) → SameFrom now r r
SameFrom-refl now r n h = (refl, refl)

count_failure-SameFrom :
    (now : ℕ) (r q : Attempts)
    → SameFrom now r q
    → SameFrom now (count_failure now r) (count_failure now q)
unfolding count_failure verdict
count_failure-SameFrom now r q same n h =
    let past = (same now (omega arith)).1 in
    let recent = keep_if (λ t. ltb now (t + window)) q.timestamps ++ (now ∷ []) in
    elim (Bool-cases (leb max_attempts (length recent))) [
      | inl e ↦ rw (past, e) (refl, refl)
      | inr e ↦ rw (past, e) ((same n h).0, refl)
    ]

forget_old :
    (now : ℕ) (ts : List ℕ)
    → All (λ t. t + window < now) ts
    → (n : ℕ) → now ≤ n
    → keep_if (λ t. ltb n (t + window)) ts ≡ []
forget_old now [] a n h = refl
forget_old now (t ∷ ts) (a, b) n h = ground (arith, forget_old now ts b n h)

-- A stale record is as good as none.
is_stale-SameFrom :
    (now : ℕ) (r : Attempts) → IsKept now r → is_stale now r ≡ true → SameFrom now no_attempts r
unfolding is_stale verdict
is_stale-SameFrom now r kept h n later = (
  ground arith,
  sym (forget_old now _ (last_before-All now now _ kept.in_order (ground arith)) n later),
)

-- Specification: the reports of one pair, folded over its record.
module _ (lower : Text → Text) where
  unfoldable pub spec_step : Key → Attempts → Report → Attempts
  spec_step k r (failed now request identifier) =
      if key_eq (login_key lower request identifier) k then count_failure now r else r
  spec_step k r (succeeded now request identifier) =
      if key_eq (login_key lower request identifier) k then no_attempts else r

  unfoldable pub spec : Key → Attempts → List Report → Attempts
  unfolding spec_step
  spec k r [] = r
  spec k r (e ∷ es) = spec k (spec_step k r e) es

  unfoldable pub limiter_step : State → Report → State
  limiter_step s (failed now request identifier) =
      record_login_failure lower now request identifier s
  limiter_step s (succeeded now request identifier) =
      record_login_success lower request identifier s

  unfoldable pub limiter : State → List Report → State
  unfolding limiter_step record_login_failure record_login_success
  limiter s [] = s
  limiter s (e ∷ es) = limiter (limiter_step s e) es

SameFrom-trans :
    (now : ℕ) (r q p : Attempts) → SameFrom now r q → SameFrom now q p → SameFrom now r p
SameFrom-trans now r q p a b n h = ((a n h).0 ∙ (b n h).0, (a n h).1 ∙ (b n h).1)

SameFrom-later :
    (now later : ℕ) (r q : Attempts) → now ≤ later → SameFrom now r q → SameFrom later r q
SameFrom-later now later r q le same n h = same n (omega arith)

prune-SameFrom :
    (now : ℕ) (k : Key) (s : State)
    → IsTidy now s
    → SameFrom now (attempts_of k (prune now s)) (attempts_of k s)
prune-SameFrom now k s tidy = elim (record_of-prune now k s tidy.unique) [
  | inl e ↦ rw e (SameFrom-refl now _)
  | inr e ↦ rw e (elim (Option-cases (record_of k s)) [
    | inl absent ↦ rw absent (SameFrom-refl now _)
    | inr (r, found) ↦ rw found (elim (Bool-cases (is_stale now r)) [
      | inl old ↦ rw old (is_stale-SameFrom now r (tidy.kept k r found) old)
      | inr fresh ↦ rw fresh (SameFrom-refl now r)
    ])
  ])
]

verdict-no_attempts : (now : ℕ) → verdict now no_attempts ≡ ok tt
unfolding verdict
verdict-no_attempts now = ground arith

empty-SameFrom : (now : ℕ) (k : Key) → SameFrom now (attempts_of k []) no_attempts
unfolding record_of
empty-SameFrom now k = SameFrom-refl now no_attempts

module _ (lower : Text → Text) where
  limiter_step-IsTidy :
      (now : ℕ) (s : State) (e : Report)
      → now ≤ moment e
      → IsTidy now s
      → IsTidy (moment e) (limiter_step lower s e)
  unfolding limiter_step
  limiter_step-IsTidy now s (failed at request identifier) h tidy =
      record_login_failure-IsTidy lower at request identifier s (IsTidy-later now at s h tidy)
  limiter_step-IsTidy now s (succeeded at request identifier) h tidy =
      record_login_success-IsTidy lower at request identifier s (IsTidy-later now at s h tidy)

  put_record-SameFrom :
      (now : ℕ) (k key : Key) (s : State) (r : Attempts)
      → SameFrom now (attempts_of k s) r
      → SameFrom now
          (attempts_of k (put_record key (count_failure now (attempts_of key s)) s))
          (if key_eq key k then count_failure now r else r)
  put_record-SameFrom now k key s r same = elim (Bool-cases (key_eq key k)) [
    | inl e ↦
        rw
          (
            record_of-put_record k key (count_failure now (attempts_of key s)) s,
            e,
            key_eq→≡ key k e,
          )
          (count_failure-SameFrom now _ r same)
    | inr e ↦ rw (record_of-put_record k key (count_failure now (attempts_of key s)) s, e) same
  ]

  limiter_step-SameFrom :
      (now : ℕ) (k : Key) (s : State) (r : Attempts) (e : Report)
      → now ≤ moment e
      → IsTidy now s
      → SameFrom now (attempts_of k s) r
      → SameFrom (moment e) (attempts_of k (limiter_step lower s e)) (spec_step lower k r e)
  unfolding limiter_step spec_step record_login_failure record_login_success
  limiter_step-SameFrom now k s r (failed at request identifier) h tidy same =
      let key = login_key lower request identifier in
      let now_tidy = IsTidy-later now at s h tidy in
      SameFrom-trans at _ _ _
        (prune-SameFrom at k _ (
          put_record-IsTidy at key _ s
            (count_failure-IsKept at _ (attempts_of-IsKept at key s now_tidy)) now_tidy))
        (put_record-SameFrom at k key s r (SameFrom-later now at _ r h same))
  limiter_step-SameFrom now k s r (succeeded at request identifier) h tidy same =
      let key = login_key lower request identifier in
      elim (Bool-cases (key_eq key k)) [
        | inl e ↦ rw (record_of-drop_record k key s tidy.unique, e) (SameFrom-refl at no_attempts)
        | inr e ↦
            rw (record_of-drop_record k key s tidy.unique, e) (SameFrom-later now at _ r h same)
      ]

  limiter-SameFrom :
      (now : ℕ) (k : Key) (s : State) (r : Attempts) (es : List Report)
      → Chronological now es
      → IsTidy now s
      → SameFrom now (attempts_of k s) r
      → SameFrom (ends_at now es) (attempts_of k (limiter lower s es)) (spec lower k r es)
  unfolding limiter spec
  limiter-SameFrom now k s r [] h tidy same = same
  limiter-SameFrom now k s r (e ∷ es) (le, h) tidy same =
      limiter-SameFrom (moment e) k _ _ es h (limiter_step-IsTidy now s e le tidy)
        (limiter_step-SameFrom now k s r e le tidy same)

  pub check_login_allowed-attempts_of :
      (now : ℕ) (request : Request) (identifier : Text) (s : State)
      → check_login_allowed lower now request identifier s
        ≡ verdict now (attempts_of (login_key lower request identifier) s)
  unfolding check_login_allowed
  check_login_allowed-attempts_of now request identifier s =
      elim (Option-cases (record_of (login_key lower request identifier) s)) [
        | inl e ↦ rw (e, check_login_allowed) (sym (verdict-no_attempts now))
        | inr (r, e) ↦ rw (e, check_login_allowed) refl
      ]

  -- Refinement: after any reports in order of time, from the empty dict, every check that is not
  -- earlier than the last of them answers what the specification answers: the verdict on a record
  -- that only the reports of the same pair have changed and that was never pruned.
  pub check_login_allowed-spec :
      (es : List Report) (now : ℕ) (request : Request) (identifier : Text)
      → Chronological 0 es
      → ends_at 0 es ≤ now
      → check_login_allowed lower now request identifier (limiter lower [] es)
        ≡ verdict now (spec lower (login_key lower request identifier) no_attempts es)
  check_login_allowed-spec es now request identifier h later =
      check_login_allowed-attempts_of now request identifier _
      ∙ (limiter-SameFrom 0 _ [] no_attempts es h (empty-IsTidy 0) (empty-SameFrom 0 _) now later).0
