-- ===== src/Staff/Managers.antt =====
-- What an update of a staff account leaves of the caller, and how it can lock the caller out.
use ebdental_api.Prelude.{
  ℕ, Bool, true, false, ◌&&◌, Option, none, some, ◌≡◌, refl, sym, ap, ◌∙◌, inl, inr, Bool-cases,
  set_row, ◌==◌, ==_iff, ==_refl, some-inj,
}
use ebdental_api.Http.{
  ok, err, user_not_found, own_user_management, last_admin, account_deactivated, own_deactivation,
  or_raise, >>=-eq-ok, guard-eq-ok, ok-injective, or_raise-eq-ok,
}
use ebdental_api.Accounts.{
  User, Claims, Permission, user_token, require_permission, get_current_user,
  principal_id_from_token,
}
use ebdental_api.Accounts.Access.{IsStaff}
use ebdental_api.Accounts.Single.{require_permission_iff}
use ebdental_api.Products.Write.{Sent, unset, null, sent, assign_required}
use ebdental_api.Staff.{
  StaffRow, Staff, UserUpdate, accounts_of, account_of, update_user, deactivate_user, assign_user,
  revokes, remaining_admins, stamped, assign_profile,
}

-- Every account stands under its own id.
abbrev pub IsKeyed : Staff → Type 0
IsKeyed s = (k : ℕ) (r : StaffRow) → s.staff.row k ≡ some r → r.user.id ≡ k

account_of-eq-some :
    (o : Option StaffRow) {u : User}
    → account_of o ≡ some u
    → (r : StaffRow) × (o ≡ some r) × (r.user ≡ u)
account_of-eq-some none h = cc
account_of-eq-some (some r) h = (r, refl, some-inj h)

-- The row of the caller.
caller_row :
    (s : Staff) (token : Option Claims) (caller : User)
    → IsKeyed s
    → (staff : IsStaff (accounts_of s) token caller)
    → (r : StaffRow) × (s.staff.row caller.id ≡ some r)
      × (r.user ≡ caller)
      × (caller.id ≡ staff.user_id)
caller_row s token caller keyed staff =
    let (r, found, same) = account_of-eq-some (s.staff.row staff.user_id) staff.found in
    let own : caller.id ≡ staff.user_id =
      ap (λ (u : User). u.id) (sym same) ∙ keyed staff.user_id r found in
    (r, ap s.staff.row own ∙ found, same, own)

kept_if_not_revoked :
    (change : Sent Bool) {m : Bool}
    → revokes change ≡ false
    → assign_required change true ≡ ok m
    → m ≡ true
kept_if_not_revoked unset a h = cc
kept_if_not_revoked null a h = cc
kept_if_not_revoked (sent true) a h = cc
kept_if_not_revoked (sent false) a h = cc

assign_user-manager :
    (u v : User) (changes : UserUpdate)
    → assign_user u changes ≡ ok v
    → u.user_management ≡ true
    → revokes changes.user_management ≡ false
    → v.user_management ≡ true
unfolding assign_user
assign_user-manager u v changes h manages keeps =
    let (a, _, h1) = >>=-eq-ok (assign_required changes.user_name u.user_name) _ h in
    let (b, _, h2) = >>=-eq-ok (assign_required changes.is_active u.is_active) _ h1 in
    let (c, set, h3) = >>=-eq-ok (assign_required changes.user_management u.user_management) _ h2 in
    let (d, _, h4) = >>=-eq-ok (assign_required changes.price_listing u.price_listing) _ h3 in
    let (e, _, h5) =
      >>=-eq-ok (assign_required changes.product_management u.product_management) _ h4 in
    let (f, _, h6) =
      >>=-eq-ok (assign_required changes.customer_management u.customer_management) _ h5 in
    let (g, _, h7) = >>=-eq-ok (assign_required changes.admin u.admin) _ h6 in
    ap (λ (w : User). w.user_management) (sym (ok-injective h7))
    ∙ kept_if_not_revoked changes.user_management keeps
        (ap (assign_required changes.user_management) (sym manages) ∙ set)

and_right : (a b : Bool) → a ≡ true → a && b ≡ false → b ≡ false
and_right true b e h = h
and_right false b e h = cc

module _ (token : Option Claims) (user_id : ℕ) (changes : UserUpdate) (s s' : Staff)
    (row : StaffRow) where
  -- Where every account stands under its own id: an update that is accepted comes from a user manager,
  -- and leaves the caller one, whichever account it changes and however.
  pub update_user-keeps_manager :
      IsKeyed s
      → update_user token user_id changes s ≡ ok (row, s')
      → (caller : User) × (r : StaffRow) × (require_permission Permission.user_management
            (accounts_of s)
            token
          ≡ ok caller)
        × (s'.staff.row caller.id ≡ some r)
        × (r.user.user_management ≡ true)
  unfolding update_user
  update_user-keeps_manager keyed h =
      let (caller, allowed, h1) =
        >>=-eq-ok (require_permission Permission.user_management (accounts_of s) token) _ h in
      let (r, found, h2) = >>=-eq-ok (or_raise (s.staff.row user_id) user_not_found) _ h1 in
      let (own, h3) =
        guard-eq-ok {b = r.user.id == caller.id && revokes changes.user_management}
          own_user_management h2 in
      let (_, h4) =
        guard-eq-ok
          {b = r.user.id == caller.id && revokes changes.admin && remaining_admins user_id s == 0}
          last_admin h3 in
      let (user, set, h5) = >>=-eq-ok (assign_user r.user changes) _ h4 in
      let (role_title, _, h6) = >>=-eq-ok (assign_required changes.role_title r.role_title) _ h5 in
      let (staff, manages) =
        (require_permission_iff Permission.user_management (accounts_of s) token caller).0
          allowed in
      let (mine, at_mine, same, _) = caller_row s token caller keyed staff in
      let found' = or_raise-eq-ok _ _ found in
      let after =
        λ (i : ℕ). sym (ap (λ (p : StaffRow × Staff). p.1.staff.row i) (ok-injective h6)) in
      elim (Bool-cases (caller.id == user_id)) [
        | inr other ↦ (
          caller,
          mine,
          allowed,
          after caller.id ∙ rw other at_mine,
          ap (λ (u : User). u.user_management) same ∙ manages,
        )
        | inl it_is ↦
            let at : caller.id ≡ user_id = (==_iff caller.id user_id).0 it_is in
            let r_is : r ≡ mine = some-inj (sym found' ∙ ap s.staff.row (sym at) ∙ at_mine) in
            let r_user : r.user ≡ caller = ap (λ (q : StaffRow). q.user) r_is ∙ same in
            let r_id : (r.user.id == caller.id) ≡ true =
              ap (λ (u : User). u.id == caller.id) r_user ∙ ==_refl caller.id in
            let keeps = and_right _ (revokes changes.user_management) r_id own in
            let saved : StaffRow = stamped caller (record r {
              user = user;
              role_title = role_title;
              profile = assign_profile r.profile changes;
            }) in
            (
              caller,
              saved,
              allowed,
              after caller.id ∙ rw it_is refl,
              assign_user-manager r.user user changes set
                  (ap (λ (u : User). u.user_management) r_user ∙ manages) keeps,
            )
      ]

-- The change that only makes an account inactive.
abbrev pub only_inactive : UserUpdate
only_inactive = record {
  user_name = unset;
  address = unset;
  phone_num = unset;
  date_of_birth = unset;
  gender = unset;
  role_title = unset;
  is_active = sent false;
  user_management = unset;
  price_listing = unset;
  product_management = unset;
  customer_management = unset;
  admin = unset;
}

and_false : (a : Bool) → a && false ≡ false
and_false true = refl
and_false false = refl

abbrev pub inactive_row : User → StaffRow → StaffRow
inactive_row caller r = stamped caller (record r { user = record r.user { is_active = false } })

abbrev pub put_row : ℕ → StaffRow → Staff → Staff
put_row k r s = record s { staff = set_row k r s.staff }

update_own :
    (token : Option Claims) (caller : User) (r : StaffRow) (s : Staff)
    → require_permission Permission.user_management (accounts_of s) token ≡ ok caller
    → s.staff.row caller.id ≡ some r
    → update_user token caller.id only_inactive s
      ≡ ok (inactive_row caller r, put_row caller.id (inactive_row caller r) s)
unfolding update_user assign_user
update_own token caller r s allowed found =
    rw (allowed, found) (rw (and_false (r.user.id == caller.id)) refl)

put_row_same : (k : ℕ) (r : StaffRow) (s : Staff) → (put_row k r s).staff.row k ≡ some r
put_row_same k r s = rw (==_refl k) refl

refused_after :
    (token : Option Claims) (payload : Claims) (i : ℕ) (r : StaffRow) (s : Staff)
    → token ≡ some payload
    → principal_id_from_token payload user_token ≡ some i
    → s.staff.row i ≡ some r
    → r.user.is_active ≡ false
    → get_current_user (accounts_of s) token ≡ err account_deactivated
unfolding get_current_user
refused_after token payload i r s signed names found off =
    rw signed (rw names (rw found (rw off refl)))

names_account :
    (payload : Claims) (i : ℕ)
    → payload.kind ≡ user_token
    → payload.sub ≡ some i
    → principal_id_from_token payload user_token ≡ some i
unfolding principal_id_from_token
names_account payload i kind sub = rw (kind, sub) refl

own_deactivation_refused :
    (token : Option Claims) (caller : User) (s : Staff)
    → require_permission Permission.user_management (accounts_of s) token ≡ ok caller
    → deactivate_user token caller.id s ≡ err own_deactivation
unfolding deactivate_user
own_deactivation_refused token caller s allowed = rw allowed (rw (==_refl caller.id) refl)

-- Where every account stands under its own id: a user manager is not let deactivate the own account by
-- DELETE, but is let set it inactive by PUT: the update is accepted, and from then on the same token is
-- refused wherever a member of staff is wanted.
pub update_user-locks_out :
    (token : Option Claims) (caller : User) (s : Staff)
    → IsKeyed s
    → require_permission Permission.user_management (accounts_of s) token ≡ ok caller
    → (deactivate_user token caller.id s ≡ err own_deactivation)
      × (row : StaffRow) × (s' : Staff) × (update_user token caller.id only_inactive s
          ≡ ok (row, s'))
      × (get_current_user (accounts_of s') token ≡ err account_deactivated)
update_user-locks_out token caller s keyed allowed =
    let (staff, _) =
      (require_permission_iff Permission.user_management (accounts_of s) token caller).0 allowed in
    let (r, found, same, own) = caller_row s token caller keyed staff in
    let row = inactive_row caller r in
    let s' = put_row caller.id row s in
    (
      own_deactivation_refused token caller s allowed,
      row,
      s',
      update_own token caller r s allowed found,
      refused_after token staff.payload caller.id row s' staff.signed
          (names_account staff.payload caller.id staff.of_staff (staff.names ∙ ap some (sym own)))
          (put_row_same caller.id row s) refl,
    )
