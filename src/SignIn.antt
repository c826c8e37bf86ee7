-- ===== src/SignIn.antt =====
-- The password endpoints: `login` of app/routers/auth.py and of app/routers/customer_auth.py, with
-- the throttle of app/core/ratelimit.py in front of them.
pub mod Effects
pub mod Guesses
use ebdental_api.Prelude.{
  Text, ℕ, Bool, true, false, not, ◌&&◌, ◌==◌, Option, none, some, List, [], ◌∷◌, map, find_if,
  if◌then◌else◌, text_eq,
}
use ebdental_api.Http.{
  HttpError, Result, ok, err, bad_credentials, account_deactivated, email_unconfirmed,
}
use ebdental_api.RateLimit.{
  Request, State, check_login_allowed, record_login_failure, record_login_success,
}

-- The columns of a User or a Customer that signing in reads or writes. A customer without a password
-- has an empty one, which the code does not tell from NULL.
pub record LoginRow : Type 0 where
  pub id : ℕ
  pub email : Text
  pub hashed_password : Text
  pub is_active : Bool
  pub is_verified : Bool
  pub last_login : Option ℕ

-- What `record_event` writes to the activity log.
pub data LogEntry : Type 0 where
  logged_in : ℕ → LogEntry
  login_failed : Text → LogEntry

pub record Desk : Type 0 where
  pub attempts : State
  pub users : List LoginRow
  pub customers : List LoginRow
  pub log : List LogEntry
  -- `notify_admin_login`, left to a background task
  pub alerts : List ℕ

-- Whose token is answered.
pub data Account : Type 0 where
  user_account customer_account : ℕ → Account

unfoldable pub stamp_last_login : ℕ → ℕ → List LoginRow → List LoginRow
stamp_last_login now i =
    map (λ (r : LoginRow). if r.id == i then record r { last_login = some now } else r)

unfoldable pub by_email : Text → List LoginRow → Option LoginRow
by_email username = find_if (λ (r : LoginRow). text_eq r.email username)

abbrev pub is_set : Text → Bool
is_set [] = false
is_set (_ ∷ _) = true

abbrev pub only_if : (LoginRow → Bool) → Option LoginRow → Option LoginRow
only_if test none = none
only_if test (some r) = if test r then some r else none

-- `lower` is `str.lower`, and `verify` is `verify_password` of a password against a bcrypt hash.
module _ (verify : Text → Text → Bool) where
  unfoldable pub user_for : Text → Text → Desk → Option LoginRow
  unfolding by_email
  user_for username password d =
      only_if (λ r. verify password r.hashed_password) (by_email username d.users)

  unfoldable pub customer_for : Text → Text → Desk → Option LoginRow
  unfolding by_email
  customer_for username password d =
      only_if (λ r. is_set r.hashed_password && verify password r.hashed_password)
        (by_email username d.customers)

module _ (lower : Text → Text) where
  unfoldable pub enter_user : ℕ → Request → Text → LoginRow → Desk → Result Account × Desk
  unfolding record_login_success stamp_last_login
  enter_user now request username u d =
      if not u.is_active
      then (err account_deactivated, d)
      else (if not u.is_verified then (err email_unconfirmed, d) else (
        ok (user_account u.id),
        record d {
          attempts = record_login_success lower request username d.attempts;
          users = stamp_last_login now u.id d.users;
          log = logged_in u.id ∷ d.log;
          alerts = u.id ∷ d.alerts;
        },
      ))

  unfoldable pub enter_customer : ℕ → Request → Text → LoginRow → Desk → Result Account × Desk
  unfolding record_login_success stamp_last_login
  enter_customer now request username c d =
      if not c.is_active
      then (err account_deactivated, d)
      else (if not c.is_verified then (err email_unconfirmed, d) else (
        ok (customer_account c.id),
        record d {
          attempts = record_login_success lower request username d.attempts;
          customers = stamp_last_login now c.id d.customers;
        },
      ))

  unfoldable pub refuse : ℕ → Request → Text → Desk → Desk
  unfolding record_login_failure
  refuse now request username d = record d {
    attempts = record_login_failure lower now request username d.attempts;
  }

module _ (lower : Text → Text) (verify : Text → Text → Bool) where
  -- POST /auth/login
  unfoldable pub login : ℕ → Request → Text → Text → Desk → Result Account × Desk
  unfolding check_login_allowed user_for customer_for enter_user enter_customer refuse
  login now request username password d =
      elim (check_login_allowed lower now request username d.attempts) [
        | err e ↦ (err e, d)
        | ok _ ↦ elim (user_for verify username password d) [
          | some u ↦ enter_user lower now request username u d
          | none ↦ elim (customer_for verify username password d) [
            | some c ↦ enter_customer lower now request username c d
            | none ↦ (
              err bad_credentials,
              record (refuse lower now request username d) { log = login_failed username ∷ d.log },
            )
          ]
        ]
      ]

  -- POST /auth/customer/login
  unfoldable pub customer_login : ℕ → Request → Text → Text → Desk → Result Account × Desk
  unfolding check_login_allowed customer_for enter_customer refuse
  customer_login now request username password d =
      elim (check_login_allowed lower now request username d.attempts) [
        | err e ↦ (err e, d)
        | ok _ ↦ elim (customer_for verify username password d) [
          | some c ↦ enter_customer lower now request username c d
          | none ↦ (err bad_credentials, refuse lower now request username d)
        ]
      ]
