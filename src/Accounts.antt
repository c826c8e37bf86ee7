-- ===== src/Accounts.antt =====
-- app/core/deps.py: who is calling and what they may do, with the ordering principal of
-- app/routers/orders.py. A token is `decode_access_token`'s payload, or `none` where PyJWT raises;
-- `sub` is what `int(sub)` answers, or `none` where it raises. A permission is one of
-- PERMISSION_NAMES, so a factory is never given an unknown one.
pub mod Access
pub mod Ordering
pub mod Single
use ebdental_api.Prelude.{
  ℕ, Bool, true, false, not, ◌&&◌, ◌||◌, Option, none, some, List, [], ◌∷◌, Text, if◌then◌else◌,
  any,
}
use ebdental_api.Http.{
  Result, ok, err, bad_credentials, account_deactivated, email_unconfirmed, permission_required,
  order_permission_required, price_access_required, raise_if, or_raise, ◌>>=◌, ◌>>◌,
}

pub record User : Type 0 where
  pub id : ℕ
  pub user_name : Text
  pub is_active : Bool
  pub is_verified : Bool
  pub user_management : Bool
  pub price_listing : Bool
  pub product_management : Bool
  pub customer_management : Bool
  pub admin : Bool

pub record Customer : Type 0 where
  pub id : ℕ
  pub customer_name : Text
  pub is_active : Bool
  pub is_verified : Bool
  pub access_permission : Bool

-- The account tables, by primary key.
pub record Accounts : Type 0 where
  pub user : ℕ → Option User
  pub customer : ℕ → Option Customer

-- The "type" claim of a token.
pub data Kind : Type 0 where
  user_token customer_token other_token : Kind

pub record Claims : Type 0 where
  pub kind : Kind
  pub sub : Option ℕ

abbrev pub same_kind : Kind → Kind → Bool
same_kind user_token user_token = true
same_kind customer_token customer_token = true
same_kind other_token other_token = true
same_kind _ _ = false

pub data Permission : Type 0 where
  user_management price_listing product_management customer_management admin : Permission

-- `getattr(user, permission, False)`
abbrev pub holds : User → Permission → Bool
holds u Permission.user_management = u.user_management
holds u Permission.price_listing = u.price_listing
holds u Permission.product_management = u.product_management
holds u Permission.customer_management = u.customer_management
holds u Permission.admin = u.admin

unfoldable pub principal_id_from_token : Claims → Kind → Option ℕ
principal_id_from_token payload expected =
    if not (same_kind payload.kind expected) then none else payload.sub

unfoldable pub get_current_user : Accounts → Option Claims → Result User
unfolding principal_id_from_token
get_current_user db token = do
  payload ← or_raise token bad_credentials
  user_id ← or_raise (principal_id_from_token payload user_token) bad_credentials
  user ← or_raise (db.user user_id) bad_credentials
  raise_if (not user.is_active) account_deactivated
  ok user

unfoldable pub get_verified_user : Accounts → Option Claims → Result User
unfolding get_current_user
get_verified_user db token = do
  user ← get_current_user db token
  raise_if (not user.is_verified) email_unconfirmed
  ok user

get_current_customer : Accounts → Option Claims → Result Customer
unfolding principal_id_from_token
get_current_customer db token = do
  payload ← or_raise token bad_credentials
  customer_id ← or_raise (principal_id_from_token payload customer_token) bad_credentials
  customer ← or_raise (db.customer customer_id) bad_credentials
  raise_if (not customer.is_active) account_deactivated
  ok customer

pub get_verified_customer : Accounts → Option Claims → Result Customer
unfolding get_current_customer
get_verified_customer db token = do
  customer ← get_current_customer db token
  raise_if (not customer.is_verified) email_unconfirmed
  ok customer

sees_as_user : Option User → Bool
sees_as_user none = false
sees_as_user (some u) = u.is_active

sees_as_customer : Option Customer → Bool
sees_as_customer none = false
sees_as_customer (some c) = c.is_active && c.access_permission

visible_as_customer : Accounts → Option ℕ → Bool
unfolding sees_as_customer
visible_as_customer db none = false
visible_as_customer db (some customer_id) = sees_as_customer (db.customer customer_id)

visible_as : Accounts → Option ℕ → Option ℕ → Bool
unfolding sees_as_user visible_as_customer
visible_as db (some user_id) _ = sees_as_user (db.user user_id)
visible_as db none customer_id = visible_as_customer db customer_id

-- `none` stands for a missing token as well as for an invalid one.
pub get_price_visibility : Accounts → Option Claims → Bool
unfolding visible_as principal_id_from_token
get_price_visibility db none = false
get_price_visibility db (some payload) =
    visible_as db (principal_id_from_token payload user_token)
      (principal_id_from_token payload customer_token)

unfoldable pub require_permission : Permission → Accounts → Option Claims → Result User
unfolding get_verified_user
require_permission permission db token = do
  user ← get_verified_user db token
  raise_if (not (holds user permission)) permission_required
  ok user

pub require_any_permission : List Permission → Accounts → Option Claims → Result User
unfolding get_verified_user
require_any_permission permissions db token = do
  user ← get_verified_user db token
  raise_if (not (any (holds user) permissions)) permission_required
  ok user

-- `tuple[Customer | None, User | None]`, of which exactly one is set.
pub data Principal : Type 0 where
  as_customer : Customer → Principal
  as_user : User → Principal

ordering_user : Accounts → ℕ → Result Principal
ordering_user db principal_id = do
  user ← or_raise (db.user principal_id) bad_credentials
  raise_if (not user.is_active) account_deactivated
  raise_if (not user.is_verified) email_unconfirmed
  raise_if (not (user.price_listing || user.product_management)) order_permission_required
  ok (as_user user)

ordering_customer : Accounts → ℕ → Result Principal
ordering_customer db principal_id = do
  customer ← or_raise (db.customer principal_id) bad_credentials
  raise_if (not customer.is_active) account_deactivated
  raise_if (not customer.is_verified) email_unconfirmed
  raise_if (not customer.access_permission) price_access_required
  ok (as_customer customer)

-- The branch on the type claim; the id is that of a token of its own type.
ordering_as : Accounts → Kind → Claims → Result Principal
unfolding ordering_user ordering_customer principal_id_from_token
ordering_as db user_token payload = do
  principal_id ← or_raise (principal_id_from_token payload user_token) bad_credentials
  ordering_user db principal_id
ordering_as db customer_token payload = do
  principal_id ← or_raise (principal_id_from_token payload customer_token) bad_credentials
  ordering_customer db principal_id
ordering_as db other_token payload = err bad_credentials

pub get_ordering_principal : Accounts → Option Claims → Result Principal
unfolding ordering_as
get_ordering_principal db token = do
  payload ← or_raise token bad_credentials
  ordering_as db payload.kind payload
