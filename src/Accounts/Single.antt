-- ===== src/Accounts/Single.antt =====
-- The gate on one permission, and the gate for customers.
use ebdental_api.Prelude.{
  ◌≡◌, ◌↔◌, refl, true, not, Option, some, [], ◌∷◌, any, not-eq-false, Bool-cases, inl, inr, ap,
  sym, ◌∙◌,
}
use ebdental_api.Http.{
  ok, bad_credentials, account_deactivated, email_unconfirmed, permission_required, or_raise,
  >>=-eq-ok, guard-eq-ok, or_raise-eq-ok, ok-injective, raise_if, ◌>>=◌, ◌>>◌,
}
use ebdental_api.Accounts.{
  User, Customer, Accounts, Claims, customer_token, principal_id_from_token, Permission, holds,
  get_verified_user, get_current_customer, get_verified_customer, require_permission,
  require_any_permission,
}
use ebdental_api.Accounts.Access.{IsStaff, IsShopper, principal_id-some, require_any_permission_iff}

any-one : (u : User) (p : Permission) → any (holds u) (p ∷ []) ≡ holds u p
any-one u p = elim (Bool-cases (holds u p)) [ inl e ↦ rw e refl | inr e ↦ rw e refl ]

-- The gate on one permission passes exactly the active, confirmed staff account that the token names
-- and that holds that permission.
pub require_permission_iff :
    (p : Permission) (db : Accounts) (token : Option Claims) (u : User)
    → (require_permission p db token ≡ ok u) ↔ (IsStaff db token u × (holds u p ≡ true))
unfolding require_permission require_any_permission
require_permission_iff p db token u =
    let one : (v : User)
        → raise_if (not (any (holds v) (p ∷ []))) permission_required
          ≡ raise_if (not (holds v p)) permission_required =
      λ v. ap (λ b. raise_if (not b) permission_required) (any-one v p) in
    let same : require_any_permission (p ∷ []) db token ≡ require_permission p db token =
      λ i. get_verified_user db token >>= λ v. one v i >> ok v in
    let (to, from) = require_any_permission_iff (p ∷ []) db token u in
    (
      λ h. let (staff, held) = to (same ∙ h) in (staff, sym (any-one u p) ∙ held),
      λ (staff, held). sym same ∙ from (staff, any-one u p ∙ held),
    )

-- The gate for customers passes exactly the active, confirmed customer account that a customer token
-- names; a staff token never passes.
pub get_verified_customer_iff :
    (db : Accounts) (token : Option Claims) (c : Customer)
    → (get_verified_customer db token ≡ ok c) ↔ IsShopper db token c
unfolding get_verified_customer get_current_customer principal_id_from_token
get_verified_customer_iff db token c = (
  λ h.
      let (d, current, h1) = >>=-eq-ok (get_current_customer db token) _ h in
      let (verified, h2) = guard-eq-ok {b = not d.is_verified} email_unconfirmed h1 in
      let (p, e1, h3) = >>=-eq-ok (or_raise token bad_credentials) _ current in
      let (i, e2, h4) =
        >>=-eq-ok (or_raise (principal_id_from_token p customer_token) bad_credentials) _ h3 in
      let (w, e3, h5) = >>=-eq-ok (or_raise (db.customer i) bad_credentials) _ h4 in
      let (active, h6) = guard-eq-ok {b = not w.is_active} account_deactivated h5 in
      let (k, sub) = principal_id-some p customer_token (or_raise-eq-ok _ bad_credentials e2) in
      let same : w ≡ c = ok-injective h6 ∙ ok-injective h2 in
      record {
        payload = p;
        customer_id = i;
        signed = or_raise-eq-ok _ bad_credentials e1;
        of_customer = k;
        names = sub;
        found = or_raise-eq-ok _ bad_credentials e3 ∙ ap some same;
        active = sym (ap (λ (x : Customer). x.is_active) same) ∙ not-eq-false _ active;
        verified =
            sym (ap (λ (x : Customer). x.is_verified) (ok-injective h2)) ∙ not-eq-false _ verified;
      },
  λ h. rw (h.signed, h.of_customer) (rw h.names (rw (h.found, h.active) (rw h.verified refl))),
)
