-- ===== src/Accounts/Access.antt =====
-- Exactly who passes each gate.
use mathlib.Core.Path.{subst}
use ebdental_api.Prelude.{
  ℕ, ◌≡◌, ◌↔◌, refl, true, Option, none, some, List, arith, any, sym, not-eq-false, ap, ◌∙◌,
}
use ebdental_api.Http.{
  ok, bad_credentials, permission_required, email_unconfirmed, account_deactivated, or_raise,
  >>=-eq-ok, guard-eq-ok, or_raise-eq-ok, ok-injective,
}
use ebdental_api.Accounts.{
  User, Customer, Accounts, Claims, Kind, principal_id_from_token, get_current_user, user_token,
  customer_token, Permission, holds, get_verified_user, require_any_permission, sees_as_user,
  sees_as_customer, visible_as, get_price_visibility,
}

-- A live staff session: the token is a staff token of this account, which is active and confirmed.
pub record IsStaff (db : Accounts) (token : Option Claims) (u : User) : Type 0 where
  pub payload : Claims
  pub user_id : ℕ
  pub signed : token ≡ some payload
  pub of_staff : payload.kind ≡ user_token
  pub names : payload.sub ≡ some user_id
  pub found : db.user user_id ≡ some u
  pub active : u.is_active ≡ true
  pub verified : u.is_verified ≡ true

-- The same for a customer's session.
pub record IsShopper (db : Accounts) (token : Option Claims) (c : Customer) : Type 0 where
  pub payload : Claims
  pub customer_id : ℕ
  pub signed : token ≡ some payload
  pub of_customer : payload.kind ≡ customer_token
  pub names : payload.sub ≡ some customer_id
  pub found : db.customer customer_id ≡ some c
  pub active : c.is_active ≡ true
  pub verified : c.is_verified ≡ true

pub principal_id-some :
    (p : Claims) (k : Kind) {i : ℕ}
    → principal_id_from_token p k ≡ some i
    → (p.kind ≡ k) × (p.sub ≡ some i)
unfolding principal_id_from_token
principal_id-some p k h = ground arith

pub principal_id-of_kind :
    (p : Claims) (k : Kind) {i : ℕ}
    → p.kind ≡ k
    → p.sub ≡ some i
    → principal_id_from_token p k ≡ some i
unfolding principal_id_from_token
principal_id-of_kind p k e h = ground arith

get_verified_user-IsStaff :
    (db : Accounts) (token : Option Claims) {u : User}
    → get_verified_user db token ≡ ok u
    → IsStaff db token u
unfolding get_verified_user get_current_user
get_verified_user-IsStaff db token {u} h =
    let (v, current, h1) = >>=-eq-ok (get_current_user db token) _ h in
    let (verified, h2) = guard-eq-ok email_unconfirmed h1 in
    let (p, e1, h3) = >>=-eq-ok (or_raise token bad_credentials) _ current in
    let (i, e2, h4) =
      >>=-eq-ok (or_raise (principal_id_from_token p user_token) bad_credentials) _ h3 in
    let (w, e3, h5) = >>=-eq-ok (or_raise (db.user i) bad_credentials) _ h4 in
    let (active, h6) = guard-eq-ok account_deactivated h5 in
    let (k, sub) = principal_id-some p user_token (or_raise-eq-ok _ _ e2) in
    let same : w ≡ u = ok-injective h6 ∙ ok-injective h2 in
    record {
      payload = p;
      user_id = i;
      signed = or_raise-eq-ok _ _ e1;
      of_staff = k;
      names = sub;
      found = or_raise-eq-ok _ _ e3 ∙ ap some same;
      active = sym (ap (λ (x : User). x.is_active) same) ∙ not-eq-false _ active;
      verified = sym (ap (λ (x : User). x.is_verified) (ok-injective h2)) ∙ not-eq-false _ verified;
    }

IsStaff-get_verified_user :
    (db : Accounts) (token : Option Claims) {u : User}
    → IsStaff db token u
    → get_verified_user db token ≡ ok u
unfolding get_verified_user get_current_user
IsStaff-get_verified_user db token h =
    rw (h.signed, principal_id-of_kind h.payload user_token h.of_staff h.names)
      (rw (h.found, h.active) (rw h.verified refl))

-- A gate on a list of permissions passes exactly one kind of caller: the account that a valid staff
-- token names, active and with a confirmed address, that holds at least one of them. A customer's
-- token never passes, whatever id it names.
pub require_any_permission_iff :
    (ps : List Permission) (db : Accounts) (token : Option Claims) (u : User)
    → (require_any_permission ps db token ≡ ok u) ↔ (IsStaff db token u × (any (holds u) ps ≡ true))
unfolding require_any_permission
require_any_permission_iff ps db token u = (
  λ h.
      let (v, verified, h1) = >>=-eq-ok (get_verified_user db token) _ h in
      let (held, h2) = guard-eq-ok permission_required h1 in
      let same : v ≡ u = ok-injective h2 in
      (
        subst (IsStaff db token) same (get_verified_user-IsStaff db token verified),
        subst (λ (x : User). any (holds x) ps ≡ true) same (not-eq-false _ held),
      ),
  λ (h, held). rw (IsStaff-get_verified_user db token h) (rw held refl),
)

-- Who is meant to see real prices.
pub data SeesPrices (db : Accounts) : Option Claims → Type 0 where
  staff :
      {p : Claims} {i : ℕ} {u : User}
      → p.kind ≡ user_token
      → p.sub ≡ some i
      → db.user i ≡ some u
      → u.is_active ≡ true
      → SeesPrices db (some p)
  shopper :
      {p : Claims} {i : ℕ} {c : Customer}
      → p.kind ≡ customer_token
      → p.sub ≡ some i
      → db.customer i ≡ some c
      → c.is_active ≡ true
      → c.access_permission ≡ true
      → SeesPrices db (some p)

sees_as_user-found :
    (o : Option User) → sees_as_user o ≡ true → (u : User) × (o ≡ some u) × (u.is_active ≡ true)
unfolding sees_as_user
sees_as_user-found none h = cc
sees_as_user-found (some u) h = (u, refl, h)

sees_as_customer-found :
    (o : Option Customer)
    → sees_as_customer o ≡ true
    → (c : Customer) × (o ≡ some c) × (c.is_active ≡ true) × (c.access_permission ≡ true)
unfolding sees_as_customer
sees_as_customer-found none h = cc
sees_as_customer-found (some c) h = (c, refl, ground arith, ground arith)

shopper_not_staff :
    (p : Claims) → p.kind ≡ customer_token → principal_id_from_token p user_token ≡ none
unfolding principal_id_from_token
shopper_not_staff p h = ground arith

visible-SeesPrices :
    (db : Accounts) (p : Claims) (o q : Option ℕ)
    → principal_id_from_token p user_token ≡ o
    → principal_id_from_token p customer_token ≡ q
    → visible_as db o q ≡ true
    → SeesPrices db (some p)
unfolding visible_as
visible-SeesPrices db p (some i) q e f h =
    let (u, found, active) = sees_as_user-found (db.user i) h in
    let (k, sub) = principal_id-some p user_token e in staff k sub found active
visible-SeesPrices db p none (some i) e f h =
    let (c, found, active, access) = sees_as_customer-found (db.customer i) h in
    let (k, sub) = principal_id-some p customer_token f in shopper k sub found active access
visible-SeesPrices db p none none e f h = cc

SeesPrices-visible :
    (db : Accounts) (token : Option Claims)
    → SeesPrices db token
    → get_price_visibility db token ≡ true
unfolding get_price_visibility sees_as_user sees_as_customer
SeesPrices-visible db token (staff {p} k s found active) =
    rw (principal_id-of_kind p user_token k s, visible_as) (rw found active)
SeesPrices-visible db token (shopper {p} k s found active access) =
    rw (shopper_not_staff p k, principal_id-of_kind p customer_token k s, visible_as)
      (rw found (rw (active, access) refl))

-- Real prices are shown exactly to an active staff account and to an active customer with price
-- access; a missing, invalid or foreign token shows none.
pub get_price_visibility_iff :
    (db : Accounts) (token : Option Claims)
    → (get_price_visibility db token ≡ true) ↔ SeesPrices db token
unfolding get_price_visibility
get_price_visibility_iff db none = (λ h. cc, SeesPrices-visible db none)
get_price_visibility_iff db (some p) =
    (visible-SeesPrices db p _ _ refl refl, SeesPrices-visible db (some p))
