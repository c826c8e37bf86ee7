-- ===== src/SignIn/Guesses.antt =====
-- How many passwords one source can try on one account: the throttle's promise to its endpoints.
use ebdental_api.Prelude.{
  Text, ℕ, suc, ◌+◌, ◌-◌, ◌≤◌, ◌<◌, Bool, true, false, ◌&&◌, List, [], ◌∷◌, ◌++◌, ◌≡◌, refl, sym,
  ◌∙◌, ◌⊎◌, inl, inr, arith, length, All, keep_if, ltb, leb, if◌then◌else◌, Bool-cases,
  Option-cases,
}
use ebdental_api.Http.{ok}
use ebdental_api.RateLimit.{
  Attempts, Key, State, Request, key_eq, record_of, is_stale, prune, count_failure, verdict, window,
  lockout, max_attempts, login_key, check_login_allowed, record_login_failure, record_login_success,
}
use ebdental_api.RateLimit.Records.{key_eq→≡, record_of-put_record, record_of-drop_record}
use ebdental_api.RateLimit.Order.{
  last_before-All, IsKept, IsTidy, attempts_of, record_of-prune, put_record-IsTidy,
  count_failure-IsKept, attempts_of-IsKept, IsTidy-later, record_login_failure-IsTidy,
  record_login_success-IsTidy,
}
use ebdental_api.RateLimit.Refinement.{check_login_allowed-attempts_of}
use ebdental_api.SignIn.{Desk}
use ebdental_api.SignIn.Effects.{is_guess, is_entry, Call, call, call-Effect}

abbrev count_since : ℕ → List ℕ → ℕ
count_since since ts = length (keep_if (λ t. leb since t) ts)

count_since_recent :
    (since now : ℕ) (ts : List ℕ)
    → since ≤ now
    → now < since + window
    → count_since since (keep_if (λ t. ltb now (t + window)) ts ++ (now ∷ []))
      ≡ count_since since ts + 1
count_since_recent since now [] a b = ground arith
count_since_recent since now (t ∷ ts) a b = elim (Bool-cases (ltb now (t + window))) [
  | inl e ↦ rw e (ground (arith, count_since_recent since now ts a b))
  | inr e ↦ rw e (ground (arith, count_since_recent since now ts a b))
]

count_since_old :
    (since now : ℕ) (ts : List ℕ)
    → now < since + window
    → All (λ t. t + window < now) ts
    → count_since since ts ≡ 0
count_since_old since now [] h a = refl
count_since_old since now (t ∷ ts) h (a, b) = ground (arith, count_since_old since now ts h b)

length-keep_if : (p : ℕ → Bool) (ts : List ℕ) → length (keep_if p ts) ≤ length ts
length-keep_if p [] = omega arith
length-keep_if p (t ∷ ts) = ground (arith, length-keep_if p ts)

-- From `since` on, `n` guesses are left: the pair is locked out for the whole window, or so many
-- failures are on record that `n` more lock it out.
abbrev Left : ℕ → ℕ → Attempts → Type 0
Left since n r =
    (since + lockout ≤ r.locked_until) ⊎ (max_attempts ≤ n + count_since since r.timestamps)

prune-Left :
    (since now n : ℕ) (k : Key) (s : State)
    → now < since + window
    → IsTidy now s
    → Left since n (attempts_of k s)
    → Left since n (attempts_of k (prune now s))
unfolding is_stale
prune-Left since now n k s soon tidy left = elim (record_of-prune now k s tidy.unique) [
  | inl e ↦ rw e left
  | inr e ↦ rw e (elim (Option-cases (record_of k s)) [
    | inl absent ↦ rw absent (rw absent at left)
    | inr (r, found) ↦ rw found (elim (Bool-cases (is_stale now r)) [
      | inr fresh ↦ rw fresh (rw found at left)
      | inl old ↦
          let none_recent =
            count_since_old since now r.timestamps soon
              (last_before-All now now _ (tidy.kept k r found).in_order (ground arith)) in
          let left' : Left since n r = rw found at left in rw old (ground arith)
    ])
  ])
]

count_failure-Left :
    (since now n : ℕ) (r : Attempts)
    → since ≤ now
    → now < since + window
    → IsKept now r
    → verdict now r ≡ ok tt
    → Left since n r
    → (m : ℕ) × (n ≡ suc m) × Left since m (count_failure now r)
unfolding verdict count_failure
count_failure-Left since now n r h soon kept allowed left =
    let some_left : (max_attempts ≤ n + count_since since r.timestamps) × (0 < n) =
      ground (arith, length-keep_if (λ t. leb since t) r.timestamps, kept.few) in
    let more = count_since_recent since now r.timestamps h soon in
    (
      n - 1,
      omega (arith, some_left.1),
      elim (Bool-cases (
          leb max_attempts
            (length (keep_if (λ t. ltb now (t + window)) r.timestamps ++ (now ∷ []))))) [
              | inl e ↦ rw e (inl (omega arith))
              | inr e ↦ rw e (inr (omega (arith, more, some_left.0, some_left.1)))
            ],
    )

module _ (lower : Text → Text) where
  check-Left :
      (now : ℕ) (request : Request) (username : Text) (s : State) (k : Key)
      → login_key lower request username ≡ k
      → check_login_allowed lower now request username s ≡ ok tt
      → verdict now (attempts_of k s) ≡ ok tt
  check-Left now request username s k e h =
      rw (← e) (sym (check_login_allowed-attempts_of lower now request username s) ∙ h)

  -- A failure of this pair that was let through uses up a guess; a failure of another uses none.
  failure-Left :
      (since now n : ℕ) (k : Key) (request : Request) (username : Text) (s : State)
      → since ≤ now
      → now < since + window
      → IsTidy now s
      → check_login_allowed lower now request username s ≡ ok tt
      → Left since n (attempts_of k s)
      → (m : ℕ) × (n ≡ m + (if key_eq (login_key lower request username) k then 1 else 0))
        × Left since m (attempts_of k (record_login_failure lower now request username s))
  unfolding record_login_failure
  failure-Left since now n k request username s h soon tidy allowed left =
      let key = login_key lower request username in
      let r = count_failure now (attempts_of key s) in
      let tidy' =
        put_record-IsTidy now key r s
          (count_failure-IsKept now _ (attempts_of-IsKept now key s tidy)) tidy in
      elim (Bool-cases (key_eq key k)) [
        | inl e ↦
            let at_k : key ≡ k = key_eq→≡ key k e in
            let (m, used, left') =
              count_failure-Left since now n (attempts_of k s) h soon
                (attempts_of-IsKept now k s tidy) (check-Left now request username s k at_k allowed)
                left in
            (
              m,
              rw e (omega (arith, used)),
              prune-Left since now m k _ soon tidy'
                  (rw (record_of-put_record k key r s, e, at_k) left'),
            )
        | inr e ↦ (
          n,
          rw e (omega arith),
          prune-Left since now n k _ soon tidy' (rw (record_of-put_record k key r s, e) left),
        )
      ]

  success-Left :
      (since now n : ℕ) (k : Key) (request : Request) (username : Text) (s : State)
      → IsTidy now s
      → key_eq (login_key lower request username) k ≡ false
      → Left since n (attempts_of k s)
      → Left since n (attempts_of k (record_login_success lower request username s))
  unfolding record_login_success
  success-Left since now n k request username s tidy e left =
      rw (record_of-drop_record k (login_key lower request username) s tidy.unique, e) left

false_left : (a b : Bool) → a && b ≡ false → b ≡ true → a ≡ false
false_left true b h k = cc
false_left false b h k = refl

-- The calls come in order of time, none after the window that begins at `since`.
abbrev pub WithinWindow : ℕ → ℕ → List Call → Type 0
WithinWindow since now [] = Unit
WithinWindow since now (c ∷ cs) =
    (now ≤ c.at) × (c.at < since + window) × WithinWindow since c.at cs

module _ (lower : Text → Text) (verify : Text → Text → Bool) (k : Key) where
  abbrev pub of_pair : Call → Bool
  of_pair c = key_eq (login_key lower c.request c.username) k

  -- How many of the calls for the pair had a password tested and refused.
  abbrev pub guesses : List Call → Desk → ℕ
  guesses [] d = 0
  guesses (c ∷ cs) d =
      let (answer, next) = call lower verify c d in
      (if of_pair c && is_guess answer then 1 else 0) + guesses cs next

  abbrev pub NobodyEnters : List Call → Desk → Type 0
  NobodyEnters [] d = Unit
  NobodyEnters (c ∷ cs) d =
      let (answer, next) = call lower verify c d in
      (of_pair c && is_entry answer ≡ false) × NobodyEnters cs next

  call-Left :
      (since now n : ℕ) (c : Call) (d : Desk)
      → since ≤ now
      → now ≤ c.at
      → c.at < since + window
      → IsTidy now d.attempts
      → of_pair c && is_entry (call lower verify c d).0 ≡ false
      → Left since n (attempts_of k d.attempts)
      → (m : ℕ) × (m + (if of_pair c && is_guess (call lower verify c d).0 then 1 else 0) ≤ n)
        × Left since m (attempts_of k (call lower verify c d).1.attempts)
        × IsTidy c.at (call lower verify c d).1.attempts
  call-Left since now n c d h later soon tidy out left =
      let tidy' = IsTidy-later now c.at _ later tidy in
      elim (call-Effect lower verify c d) [
        | inl (guess, same) ↦ (n, ground arith, rw same left, rw same tidy')
        | inr (inl (allowed, next, guess)) ↦
            let (m, used, left') =
              failure-Left lower since c.at n k c.request c.username d.attempts (omega arith) soon
                tidy' allowed left in
            (
              m,
              ground arith,
              rw next left',
              rw next (record_login_failure-IsTidy lower c.at c.request c.username _ tidy'),
            )
        | inr (inr (entry, next)) ↦
            let other : of_pair c ≡ false = false_left (of_pair c) _ out entry in
            (
              n,
              rw other (omega arith),
              rw next (
                  success-Left lower since c.at n k c.request c.username d.attempts tidy' other
                    left),
              rw next (record_login_success-IsTidy lower c.at c.request c.username _ tidy'),
            )
      ]

  guesses-le-Left :
      (since now n : ℕ) (cs : List Call) (d : Desk)
      → since ≤ now
      → WithinWindow since now cs
      → IsTidy now d.attempts
      → NobodyEnters cs d
      → Left since n (attempts_of k d.attempts)
      → guesses cs d ≤ n
  guesses-le-Left since now n [] d h w tidy out left = omega arith
  guesses-le-Left since now n (c ∷ cs) d h (later, soon, w) tidy (first, out) left =
      let (m, used, left', tidy') = call-Left since now n c d h later soon tidy first left in
      omega (arith, used, guesses-le-Left since c.at m cs _ (omega arith) w tidy' out left')

  -- However many calls come in within fifteen minutes, in order of time, through either endpoint and
  -- among whatever calls of others, at most ten of those for one pair of address and name have a
  -- password tested and refused, as long as none of them signs in. The dict that they start from has
  -- one record for each pair, with fewer than ten failures, in order and none of them in the future.
  pub guesses-le_max :
      (since : ℕ) (cs : List Call) (d : Desk)
      → WithinWindow since since cs
      → IsTidy since d.attempts
      → NobodyEnters cs d
      → guesses cs d ≤ max_attempts
  guesses-le_max since cs d w tidy out =
      guesses-le-Left since since max_attempts cs d (omega arith) w tidy out (inr (omega arith))
