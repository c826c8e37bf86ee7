-- ===== src/RateLimit.antt =====
-- app/core/ratelimit.py: the throttle on sign-in attempts. A moment is a whole number of
-- microseconds. The module's dict is an association list in insertion order.
pub mod Records
pub mod Order
pub mod Refinement
use ebdental_api.Prelude.{
  Text, ℕ, ◌+◌, ◌-◌, ◌*◌, ◌/◌, Bool, true, false, ◌&&◌, ◌||◌, Option, none, some, List, [], ◌∷◌,
  ◌++◌, ltb, leb, ◌==◌, if◌then◌else◌, text_eq, length, keep_if, any, take, value_or,
}
use ebdental_api.Numerals.{strip}
use ebdental_api.Http.{Result, ok, err, too_many_attempts}

abbrev pub second : ℕ
second = 1000000

-- MAX_ATTEMPTS, WINDOW_SECONDS, LOCKOUT_SECONDS, _PRUNE_THRESHOLD
abbrev pub max_attempts : ℕ
max_attempts = 10

abbrev pub window : ℕ
window = 15 * 60 * second

abbrev pub lockout : ℕ
lockout = 15 * 60 * second

abbrev pub prune_threshold : ℕ
prune_threshold = 1024

pub record Attempts : Type 0 where
  pub timestamps : List ℕ
  pub locked_until : ℕ

-- `_Attempts()`
abbrev pub no_attempts : Attempts
no_attempts = record { timestamps = []; locked_until = 0 }

-- What the limiter reads of a request: the X-Forwarded-For header and the peer's address.
pub record Request : Type 0 where
  pub forwarded_for : Option Text
  pub client_host : Option Text

-- (client IP, identifier in lower case)
abbrev pub Key : Type 0
Key = Text × Text

unfoldable pub key_eq : Key → Key → Bool
key_eq j k = text_eq j.0 k.0 && text_eq j.1 k.1

abbrev pub State : Type 0
State = List (Key × Attempts)

-- `s.split(",")[0]`
pub up_to_comma : Text → Text
up_to_comma [] = []
up_to_comma (c ∷ s) = if c == b',' then [] else c ∷ up_to_comma s

abbrev unknown_host : Text
unknown_host = b'u' ∷ b'n' ∷ b'k' ∷ b'n' ∷ b'o' ∷ b'w' ∷ b'n' ∷ []

unfoldable pub client_ip : Request → Text
unfolding up_to_comma strip
client_ip r = elim r.forwarded_for [
  | some (c ∷ s) ↦ take 64 (strip (up_to_comma (c ∷ s)))
  | _ ↦ value_or r.client_host unknown_host
]

-- `_attempts.get(key)`
pub record_of : Key → State → Option Attempts
record_of k [] = none
record_of k ((j, r) ∷ s) = if key_eq j k then some r else record_of k s

-- `_attempts.setdefault(key, _Attempts())`, and the writes to the record that it answers.
pub put_record : Key → Attempts → State → State
put_record k r [] = (k, r) ∷ []
put_record k r ((j, old) ∷ s) = if key_eq j k then (j, r) ∷ s else (j, old) ∷ put_record k r s

-- `_attempts.pop(key, None)`
pub drop_record : Key → State → State
drop_record k [] = []
drop_record k ((j, r) ∷ s) = if key_eq j k then s else (j, r) ∷ drop_record k s

-- `not record.timestamps or record.timestamps[-1] < now - WINDOW_SECONDS`
unfoldable pub last_before : ℕ → List ℕ → Bool
last_before now [] = true
last_before now (t ∷ []) = ltb (t + window) now
last_before now (t ∷ u ∷ ts) = last_before now (u ∷ ts)

unfoldable pub is_stale : ℕ → Attempts → Bool
unfolding last_before
is_stale now r = ltb r.locked_until now && last_before now r.timestamps

pub keep_fresh : ℕ → State → State
keep_fresh now [] = []
keep_fresh now ((k, r) ∷ s) =
    let rest = keep_fresh now s in if is_stale now r then rest else (k, r) ∷ rest

unfoldable pub prune : ℕ → State → State
unfolding keep_fresh is_stale
prune now s = if ltb (length s) prune_threshold then s else keep_fresh now s

-- The body of `record_login_failure` on the pair's record.
unfoldable pub count_failure : ℕ → Attempts → Attempts
count_failure now r =
    let recent = keep_if (λ t. ltb now (t + window)) r.timestamps ++ (now ∷ []) in
    if leb max_attempts (length recent)
    then record { timestamps = []; locked_until = now + lockout }
    else record r { timestamps = recent }

-- What `check_login_allowed` answers for a record.
unfoldable pub verdict : ℕ → Attempts → Result (Unit {0})
verdict now r =
    if leb r.locked_until now
    then ok tt
    else err (too_many_attempts ((r.locked_until - now) / second + 1))

-- `str.lower` of the identifier is a parameter.
module _ (lower : Text → Text) where
  unfoldable pub login_key : Request → Text → Key
  unfolding client_ip
  login_key request identifier = (client_ip request, lower identifier)

  unfoldable pub check_login_allowed : ℕ → Request → Text → State → Result (Unit {0})
  unfolding login_key record_of verdict
  check_login_allowed now request identifier s = elim (record_of (login_key request identifier) s) [
    | none ↦ ok tt
    | some r ↦ verdict now r
  ]

  unfoldable pub record_login_failure : ℕ → Request → Text → State → State
  unfolding login_key record_of put_record prune count_failure
  record_login_failure now request identifier s =
      let key = login_key request identifier in
      prune now (put_record key (count_failure now (value_or (record_of key s) no_attempts)) s)

  unfoldable pub record_login_success : Request → Text → State → State
  unfolding login_key drop_record
  record_login_success request identifier s = drop_record (login_key request identifier) s
