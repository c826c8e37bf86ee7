-- ===== src/Staff.antt =====
-- app/routers/users.py: the staff accounts, and what a user manager may do to them.
pub mod Managers
use ebdental_api.Prelude.{
  Text, ℕ, ◌+◌, Bool, true, false, not, ◌&&◌, Option, none, some, List, [], ◌∷◌, any, ◌==◌,
  if◌then◌else◌, text_eq, Table, insert_row, set_row, rows, keep_if, length,
}
use ebdental_api.Http.{
  HttpError, Result, ok, err, user_not_found, email_taken, own_user_management, last_admin,
  own_deactivation, wrong_password, raise_if, or_raise, ◌>>=◌, ◌>>◌,
}
use ebdental_api.Accounts.{
  User, Customer, Accounts, Claims, Permission, get_verified_user, require_permission,
}
use ebdental_api.Products.Write.{Sent, unset, null, sent, assign, assign_required}

pub record Profile : Type 0 where
  pub address : Option Text
  pub phone_num : Option Text
  pub date_of_birth : Option ℕ
  pub gender : Option Text

-- A row of `users`.
pub record StaffRow : Type 0 where
  pub user : User
  pub email : Text
  pub hashed_password : Text
  pub role_title : Text
  pub profile : Profile
  pub verification_token : Option Text
  pub updated_by_user_id : Option ℕ

-- The tables, and the confirmation mails that are left to background tasks.
pub record Staff : Type 0 where
  pub staff : Table StaffRow
  pub customers : ℕ → Option Customer
  pub mails : List (Text × Text)

abbrev pub account_of : Option StaffRow → Option User
account_of none = none
account_of (some r) = some r.user

-- The accounts, as app/core/deps.py reads them.
abbrev pub accounts_of : Staff → Accounts
accounts_of s = record { user = λ k. account_of (s.staff.row k); customer = s.customers }

abbrev pub save : ℕ → StaffRow → Staff → Staff
save k r s = record s { staff = set_row k r s.staff }

-- UserCreateByAdmin
pub record UserCreate : Type 0 where
  pub user_name : Text
  pub email : Text
  pub password : Text
  pub role_title : Text
  pub profile : Profile
  pub user_management : Bool
  pub price_listing : Bool
  pub product_management : Bool
  pub customer_management : Bool
  pub admin : Bool

-- UserUpdateByAdmin
pub record UserUpdate : Type 0 where
  pub user_name : Sent Text
  pub address : Sent Text
  pub phone_num : Sent Text
  pub date_of_birth : Sent ℕ
  pub gender : Sent Text
  pub role_title : Sent Text
  pub is_active : Sent Bool
  pub user_management : Sent Bool
  pub price_listing : Sent Bool
  pub product_management : Sent Bool
  pub customer_management : Sent Bool
  pub admin : Sent Bool

-- `changes.get(k) is False`
abbrev pub revokes : Sent Bool → Bool
revokes (sent false) = true
revokes _ = false

abbrev pub email_used : Text → Staff → Bool
email_used email s = any (λ (r : ℕ × StaffRow). text_eq r.1.email email) (rows s.staff)

-- Active admins other than the account `k`.
unfoldable pub remaining_admins : ℕ → Staff → ℕ
remaining_admins k s = length (
    keep_if (λ (r : ℕ × StaffRow). r.1.user.admin && r.1.user.is_active && not (r.0 == k))
      (rows s.staff))

abbrev pub stamped : User → StaffRow → StaffRow
stamped current_user r = record r { updated_by_user_id = some current_user.id }

-- The setattr loop over the columns of an account.
unfoldable pub assign_user : User → UserUpdate → Result User
assign_user u changes = do
  user_name ← assign_required changes.user_name u.user_name
  is_active ← assign_required changes.is_active u.is_active
  user_management ← assign_required changes.user_management u.user_management
  price_listing ← assign_required changes.price_listing u.price_listing
  product_management ← assign_required changes.product_management u.product_management
  customer_management ← assign_required changes.customer_management u.customer_management
  admin ← assign_required changes.admin u.admin
  ok record u {
    user_name = user_name;
    is_active = is_active;
    user_management = user_management;
    price_listing = price_listing;
    product_management = product_management;
    customer_management = customer_management;
    admin = admin;
  }

abbrev pub assign_profile : Profile → UserUpdate → Profile
assign_profile p changes = record {
  address = assign changes.address p.address;
  phone_num = assign changes.phone_num p.phone_num;
  date_of_birth = assign changes.date_of_birth p.date_of_birth;
  gender = assign changes.gender p.gender;
}

-- PUT /users/{user_id}
unfoldable pub update_user : Option Claims → ℕ → UserUpdate → Staff → Result (StaffRow × Staff)
unfolding remaining_admins assign_user
update_user token user_id changes s = do
  current_user ← require_permission Permission.user_management (accounts_of s) token
  r ← or_raise (s.staff.row user_id) user_not_found
  raise_if (r.user.id == current_user.id && revokes changes.user_management) own_user_management
  raise_if
      (r.user.id == current_user.id && revokes changes.admin && remaining_admins user_id s == 0)
      last_admin
  user ← assign_user r.user changes
  role_title ← assign_required changes.role_title r.role_title
  let row = stamped current_user (record r {
    user = user;
    role_title = role_title;
    profile = assign_profile r.profile changes;
  })
  ok (row, save user_id row s)

-- DELETE /users/{user_id}
unfoldable pub deactivate_user : Option Claims → ℕ → Staff → Result (StaffRow × Staff)
deactivate_user token user_id s = do
  current_user ← require_permission Permission.user_management (accounts_of s) token
  raise_if (user_id == current_user.id) own_deactivation
  r ← or_raise (s.staff.row user_id) user_not_found
  let row = stamped current_user (record r { user = record r.user { is_active = false } })
  ok (row, save user_id row s)

-- `hash` is `hash_password`, `verify` is `verify_password`, `fresh_token` what
-- `generate_url_safe_token` answers.
module _ (hash : Text → Text) (verify : Text → Text → Bool) (fresh_token : Text) where
  -- POST /users/
  unfoldable pub create_user : Option Claims → UserCreate → Staff → Result (StaffRow × Staff)
  create_user token payload s = do
    current_user ← require_permission Permission.user_management (accounts_of s) token
    raise_if (email_used payload.email s) email_taken
    let row : StaffRow = record {
      user = record {
        id = s.staff.next;
        user_name = payload.user_name;
        is_active = true;
        is_verified = false;
        user_management = payload.user_management;
        price_listing = payload.price_listing;
        product_management = payload.product_management;
        customer_management = payload.customer_management;
        admin = payload.admin;
      };
      email = payload.email;
      hashed_password = hash payload.password;
      role_title = payload.role_title;
      profile = payload.profile;
      verification_token = some fresh_token;
      updated_by_user_id = some current_user.id;
    }
    ok (
      row,
      record s { staff = insert_row row s.staff; mails = (payload.email, fresh_token) ∷ s.mails },
    )

  -- PUT /users/{user_id}/password
  unfoldable pub admin_set_user_password : Option Claims → ℕ → Text → Staff → Result Staff
  admin_set_user_password token user_id new_password s = do
    current_user ← require_permission Permission.user_management (accounts_of s) token
    r ← or_raise (s.staff.row user_id) user_not_found
    ok (save user_id (stamped current_user (record r { hashed_password = hash new_password })) s)

  -- POST /users/me/change-password
  unfoldable pub change_my_password : Option Claims → Text → Text → Staff → Result Staff
  change_my_password token current_password new_password s = do
    current_user ← get_verified_user (accounts_of s) token
    r ← or_raise (s.staff.row current_user.id) user_not_found
    raise_if (not (verify current_password r.hashed_password)) wrong_password
    ok (save current_user.id (record r { hashed_password = hash new_password }) s)
