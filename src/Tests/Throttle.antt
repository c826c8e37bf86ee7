-- ===== src/Tests/Throttle.antt =====
-- The throttle and the password endpoints on a shop with one member of staff and one customer.
use ebdental_api.Prelude.{
  Text, ℕ, ◌*◌, ◌≤◌, true, none, some, List, [], ◌∷◌, ◌≡◌, refl, text_eq, arith,
}
use ebdental_api.Http.{ok, err, too_many_attempts}
use ebdental_api.RateLimit.{
  Request, key_eq, second, no_attempts, max_attempts, verdict, login_key, check_login_allowed,
  record_login_failure, client_ip,
}
use ebdental_api.RateLimit.Order.{empty-IsTidy}
use ebdental_api.RateLimit.Refinement.{Report, failed, limiter, spec, check_login_allowed-spec}
use ebdental_api.SignIn.{Desk, LoginRow, login, user_account}
use ebdental_api.SignIn.Effects.{Call, any_account, customers_only, call}
use ebdental_api.SignIn.Guesses.{guesses, guesses-le_max}

abbrev as_typed : Text → Text
as_typed s = s

abbrev ann : Text
ann = 97 ∷ 110 ∷ 110 ∷ []

abbrev from_office : Request
from_office = record { forwarded_for = some (32 ∷ 49 ∷ 44 ∷ 50 ∷ []); client_host = none }

-- The first hop, without its space.
office_ip : client_ip from_office ≡ 49 ∷ []
unfolding client_ip
office_ip = refl

abbrev a_minute : ℕ
a_minute = 60 * second

abbrev nine_failures : List Report
nine_failures =
    failed (100 * second) from_office ann
    ∷ failed (101 * second) from_office ann
    ∷ failed (102 * second) from_office ann
    ∷ failed (103 * second) from_office ann
    ∷ failed (104 * second) from_office ann
    ∷ failed (105 * second) from_office ann
    ∷ failed (106 * second) from_office ann
    ∷ failed (107 * second) from_office ann
    ∷ failed (108 * second) from_office ann
    ∷ []

abbrev a_moment_ago : ℕ
a_moment_ago = 109 * second

abbrev ten_failures : List Report
ten_failures = failed (99 * second) from_office ann ∷ nine_failures

check_login_allowed-spec_example :
    check_login_allowed as_typed a_moment_ago from_office ann (limiter as_typed [] nine_failures)
    ≡ verdict a_moment_ago
        (spec as_typed (login_key as_typed from_office ann) no_attempts nine_failures)
check_login_allowed-spec_example =
    check_login_allowed-spec as_typed nine_failures a_moment_ago from_office ann (omega arith)
      (omega arith)

-- Nine failures are let pass, ten are not.
allowed_after_nine :
    check_login_allowed as_typed a_moment_ago from_office ann (limiter as_typed [] nine_failures)
    ≡ ok tt
unfolding limiter check_login_allowed record_login_failure key_eq
allowed_after_nine = refl

locked_after_ten :
    check_login_allowed as_typed a_moment_ago from_office ann (limiter as_typed [] ten_failures)
    ≡ err (too_many_attempts 900)
unfolding limiter check_login_allowed record_login_failure key_eq
locked_after_ten = refl

abbrev ann_row : LoginRow
ann_row = record {
  id = 1;
  email = ann;
  hashed_password = 7 ∷ [];
  is_active = true;
  is_verified = true;
  last_login = none;
}

abbrev desk : Desk
desk = record { attempts = []; users = ann_row ∷ []; customers = []; log = []; alerts = [] }

abbrev wrong_call : Call
wrong_call = record {
  at = 5;
  request = from_office;
  username = ann;
  password = 8 ∷ [];
  door = any_account;
}

abbrev calls : List Call
calls = wrong_call ∷ record wrong_call { at = 9; door = customers_only } ∷ []

guesses-le_max_example :
    guesses as_typed text_eq (login_key as_typed from_office ann) calls desk ≤ max_attempts
unfolding call key_eq
guesses-le_max_example =
    guesses-le_max as_typed text_eq (login_key as_typed from_office ann) 5 calls desk (omega arith)
      (empty-IsTidy 5) (refl, (refl, tt))

two_guesses : guesses as_typed text_eq (login_key as_typed from_office ann) calls desk ≡ 2
unfolding call key_eq
two_guesses = refl

enters : (login as_typed text_eq 9 from_office ann (7 ∷ []) desk).0 ≡ ok (user_account 1)
unfolding login
enters = refl
