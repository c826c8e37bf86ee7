-- ===== src/Accounts/Ordering.antt =====
-- Exactly who may place an order.
use mathlib.Core.Path.{subst}
use ebdental_api.Prelude.{◌≡◌, ◌↔◌, refl, true, not, ◌||◌, Option, some, not-eq-false}
use ebdental_api.Http.{
  ok, bad_credentials, email_unconfirmed, account_deactivated, order_permission_required,
  price_access_required, or_raise, >>=-eq-ok, guard-eq-ok, or_raise-eq-ok, ok-injective,
}
use ebdental_api.Accounts.{
  User, Customer, Accounts, Claims, Kind, principal_id_from_token, user_token, customer_token,
  other_token, Principal, as_user, as_customer, ordering_user, ordering_customer, ordering_as,
  get_ordering_principal,
}
use ebdental_api.Accounts.Access.{IsStaff, IsShopper, principal_id-some}

-- Who is meant to be able to order.
pub data MayOrder (db : Accounts) (token : Option Claims) : Principal → Type 0 where
  by_staff :
      {u : User}
      → IsStaff db token u
      → (u.price_listing || u.product_management) ≡ true
      → MayOrder db token (as_user u)
  by_shopper :
      {c : Customer}
      → IsShopper db token c
      → c.access_permission ≡ true
      → MayOrder db token (as_customer c)

module _ (db : Accounts) (token : Option Claims) where
  as-MayOrder :
      (p : Claims) (k : Kind) {who : Principal}
      → token ≡ some p
      → ordering_as db k p ≡ ok who
      → MayOrder db token who
  unfolding ordering_as ordering_user ordering_customer
  as-MayOrder p user_token signed h =
      let (i, e, h1) =
        >>=-eq-ok (or_raise (principal_id_from_token p user_token) bad_credentials) _ h in
      let (u, found, h2) = >>=-eq-ok (or_raise (db.user i) bad_credentials) _ h1 in
      let (active, h3) = guard-eq-ok {b = not u.is_active} account_deactivated h2 in
      let (verified, h4) = guard-eq-ok {b = not u.is_verified} email_unconfirmed h3 in
      let (may, h5) =
        guard-eq-ok {b = not (u.price_listing || u.product_management)} order_permission_required
          h4 in
      let (kind, sub) = principal_id-some p user_token (or_raise-eq-ok _ bad_credentials e) in
      subst (MayOrder db token) (ok-injective h5) (
        by_staff
          (record {
            payload = p;
            user_id = i;
            signed = signed;
            of_staff = kind;
            names = sub;
            found = or_raise-eq-ok _ bad_credentials found;
            active = not-eq-false _ active;
            verified = not-eq-false _ verified;
          })
          (not-eq-false _ may))
  as-MayOrder p customer_token signed h =
      let (i, e, h1) =
        >>=-eq-ok (or_raise (principal_id_from_token p customer_token) bad_credentials) _ h in
      let (c, found, h2) = >>=-eq-ok (or_raise (db.customer i) bad_credentials) _ h1 in
      let (active, h3) = guard-eq-ok {b = not c.is_active} account_deactivated h2 in
      let (verified, h4) = guard-eq-ok {b = not c.is_verified} email_unconfirmed h3 in
      let (may, h5) = guard-eq-ok {b = not c.access_permission} price_access_required h4 in
      let (kind, sub) = principal_id-some p customer_token (or_raise-eq-ok _ bad_credentials e) in
      subst (MayOrder db token) (ok-injective h5) (
        by_shopper
          (record {
            payload = p;
            customer_id = i;
            signed = signed;
            of_customer = kind;
            names = sub;
            found = or_raise-eq-ok _ bad_credentials found;
            active = not-eq-false _ active;
            verified = not-eq-false _ verified;
          })
          (not-eq-false _ may))
  as-MayOrder p other_token signed h = cc

  MayOrder-get_ordering_principal :
      (who : Principal) → MayOrder db token who → get_ordering_principal db token ≡ ok who
  unfolding get_ordering_principal ordering_as ordering_user ordering_customer
      principal_id_from_token
  MayOrder-get_ordering_principal who (by_staff h may) =
      rw (h.signed, h.of_staff) (rw h.names (rw (h.found, h.active) (rw h.verified (rw may refl))))
  MayOrder-get_ordering_principal who (by_shopper h may) =
      rw (h.signed, h.of_customer)
        (rw h.names (rw (h.found, h.active) (rw h.verified (rw may refl))))

  -- The endpoints that place orders let exactly two kinds of caller through, and tell them apart by the
  -- token alone: active, confirmed staff with price_listing or product_management, and active,
  -- confirmed customers with price access.
  pub get_ordering_principal_iff :
      (who : Principal) → (get_ordering_principal db token ≡ ok who) ↔ MayOrder db token who
  unfolding get_ordering_principal
  get_ordering_principal_iff who = (
    λ h.
        let (p, signed, h1) = >>=-eq-ok (or_raise token bad_credentials) _ h in
        as-MayOrder p p.kind (or_raise-eq-ok _ bad_credentials signed) h1,
    MayOrder-get_ordering_principal who,
  )
