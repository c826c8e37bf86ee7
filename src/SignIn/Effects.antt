-- ===== src/SignIn/Effects.antt =====
-- What a call of a password endpoint does to the throttle, by its answer.
use ebdental_api.Prelude.{
  Text, ℕ, Bool, true, false, ◌≡◌, refl, ◌⊎◌, inl, inr, leb, Bool-cases, Option-cases,
}
use ebdental_api.Http.{Result, ok, err, bad_credentials, too_many_attempts}
use ebdental_api.RateLimit.{
  Request, State, check_login_allowed, record_login_failure, record_login_success, verdict,
  login_key, record_of,
}
use ebdental_api.SignIn.{
  Desk, Account, LoginRow, login, customer_login, enter_user, enter_customer, user_for,
  customer_for, refuse,
}

-- A 401: the password has been tested, and was wrong.
abbrev pub is_guess : Result Account → Bool
is_guess (err bad_credentials) = true
is_guess _ = false

abbrev pub is_entry : Result Account → Bool
is_entry (ok _) = true
is_entry (err _) = false

-- The two endpoints.
pub data Door : Type 0 where
  any_account customers_only : Door

pub record Call : Type 0 where
  pub at : ℕ
  pub request : Request
  pub username : Text
  pub password : Text
  pub door : Door

module _ (lower : Text → Text) (verify : Text → Text → Bool) where
  unfoldable pub call_door : Door → Call → Desk → Result Account × Desk
  call_door any_account c d = login lower verify c.at c.request c.username c.password d
  call_door customers_only c d = customer_login lower verify c.at c.request c.username c.password d

  unfoldable pub call : Call → Desk → Result Account × Desk
  unfolding call_door login customer_login
  call c d = call_door c.door c d

  abbrev Effect : Call → Desk → Result Account × Desk → Type 0
  Effect c d r =
      ((is_guess r.0 ≡ false) × (r.1.attempts ≡ d.attempts))
      ⊎ ((check_login_allowed lower c.at c.request c.username d.attempts ≡ ok tt)
          × (r.1.attempts ≡ record_login_failure lower c.at c.request c.username d.attempts)
          × (is_guess r.0 ≡ true))
      ⊎ ((is_entry r.0 ≡ true)
          × (r.1.attempts ≡ record_login_success lower c.request c.username d.attempts))

  -- What follows a password that matched.
  abbrev IsLetIn : Call → Desk → Result Account × Desk → Type 0
  IsLetIn c d r =
      ((is_guess r.0 ≡ false) × (r.1.attempts ≡ d.attempts))
      ⊎ ((is_entry r.0 ≡ true)
          × (r.1.attempts ≡ record_login_success lower c.request c.username d.attempts))

  check_login_allowed-cases :
      (now : ℕ) (request : Request) (username : Text) (s : State)
      → (check_login_allowed lower now request username s ≡ ok tt)
        ⊎ ((n : ℕ) × (check_login_allowed lower now request username s ≡ err (too_many_attempts n)))
  unfolding check_login_allowed verdict
  check_login_allowed-cases now request username s =
      elim (Option-cases (record_of (login_key lower request username) s)) [
        | inl e ↦ rw (e, check_login_allowed) (inl refl)
        | inr (r, e) ↦
            rw (e, check_login_allowed)
              (elim (Bool-cases (leb r.locked_until now)) [
                | inl over ↦ rw over (inl refl)
                | inr on ↦ rw on (inr (_, refl))
              ])
      ]

  enter_user-IsLetIn :
      (c : Call) (u : LoginRow) (d : Desk)
      → IsLetIn c d (enter_user lower c.at c.request c.username u d)
  unfolding enter_user
  enter_user-IsLetIn c u d = elim (Bool-cases u.is_active) [
    | inr e ↦ rw e (inl (refl, refl))
    | inl e ↦ elim (Bool-cases u.is_verified) [
      | inr f ↦ rw (e, f) (inl (refl, refl))
      | inl f ↦ rw (e, f) (inr (refl, refl))
    ]
  ]

  enter_customer-IsLetIn :
      (c : Call) (u : LoginRow) (d : Desk)
      → IsLetIn c d (enter_customer lower c.at c.request c.username u d)
  unfolding enter_customer
  enter_customer-IsLetIn c u d = elim (Bool-cases u.is_active) [
    | inr e ↦ rw e (inl (refl, refl))
    | inl e ↦ elim (Bool-cases u.is_verified) [
      | inr f ↦ rw (e, f) (inl (refl, refl))
      | inl f ↦ rw (e, f) (inr (refl, refl))
    ]
  ]

  call_door-Effect : (door : Door) (c : Call) (d : Desk) → Effect c d (call_door door c d)
  unfolding call_door login customer_login refuse
  call_door-Effect any_account c d =
      elim (check_login_allowed-cases c.at c.request c.username d.attempts) [
        | inr (n, e) ↦ rw (e, login) (inl (refl, refl))
        | inl e ↦
            rw (e, login)
              (elim (Option-cases (user_for verify c.username c.password d)) [
                | inr (u, f) ↦
                    rw f (elim (enter_user-IsLetIn c u d) [ inl h ↦ inl h | inr h ↦ inr (inr h) ])
                | inl f ↦ rw f (elim (Option-cases (customer_for verify c.username c.password d)) [
                  | inr (u, g) ↦
                      rw g (elim (enter_customer-IsLetIn c u d) [
                        | inl h ↦ inl h
                        | inr h ↦ inr (inr h)
                      ])
                  | inl g ↦ rw g (inr (inl (refl, refl, refl)))
                ])
              ])
      ]
  call_door-Effect customers_only c d =
      elim (check_login_allowed-cases c.at c.request c.username d.attempts) [
        | inr (n, e) ↦ rw (e, customer_login) (inl (refl, refl))
        | inl e ↦
            rw (e, customer_login)
              (elim (Option-cases (customer_for verify c.username c.password d)) [
                | inr (u, g) ↦
                    rw g
                      (elim (enter_customer-IsLetIn c u d) [ inl h ↦ inl h | inr h ↦ inr (inr h) ])
                | inl g ↦ rw g (inr (inl (refl, refl, refl)))
              ])
      ]

  pub call-Effect : (c : Call) (d : Desk) → Effect c d (call c d)
  unfolding call
  call-Effect c d = call_door-Effect c.door c d
