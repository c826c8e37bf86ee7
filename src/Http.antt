-- ===== src/Http.antt =====
-- What a request handler answers: a value, or the `HTTPException` that it raises. Each constructor
-- of `HttpError` is one `raise` of the sources, and `status_code` is the code that it carries.
use ebdental_api.Prelude.{ℕ, ◌≡◌, refl, Bool, true, false, Option, none, some}

pub data HttpError : Type 0 where
  -- app/core/deps.py, app/routers/orders.py: who is calling
  bad_credentials account_deactivated email_unconfirmed permission_required : HttpError
  order_permission_required price_access_required discount_permission_required : HttpError
  -- app/core/bundles.py
  option_group_empty unknown_option_group unknown_choice free_with_itself : HttpError
  choice_listed_twice product_listed_twice no_such_product : ℕ → HttpError
  -- app/routers/orders.py
  not_sold_alone no_such_promotion promotion_inactive no_such_set : HttpError
  staff_cart khqr_unavailable khqr_refused choose_payment_method use_checkout : HttpError
  checkout_not_found order_not_found not_your_order no_qr_payment : HttpError
  already_paid already_refunded refunded_needs_new_order nothing_to_refund : HttpError
  field_empty percent_above_100 status_moves_forward order_cancelled : HttpError
  refund_admin_only delete_admin_only : HttpError
  -- app/routers/products.py
  product_not_found brand_unknown category_unknown code_in_use list_below_price : HttpError
  product_management_required price_listing_required : HttpError
  -- app/routers/users.py
  user_not_found email_taken own_user_management last_admin own_deactivation : HttpError
  wrong_password : HttpError
  -- an exception of Python's, which surfaces as a 500
  type_error : HttpError
  -- a statement that the database refuses, which surfaces as a 500
  integrity_error : HttpError
  -- app/core/ratelimit.py, with the Retry-After header
  too_many_attempts : ℕ → HttpError

status_code : HttpError → ℕ
status_code bad_credentials = 401
status_code account_deactivated = 403
status_code email_unconfirmed = 403
status_code permission_required = 403
status_code order_permission_required = 403
status_code price_access_required = 403
status_code discount_permission_required = 403
status_code refund_admin_only = 403
status_code delete_admin_only = 403
status_code not_your_order = 403
status_code checkout_not_found = 404
status_code order_not_found = 404
status_code already_refunded = 409
status_code nothing_to_refund = 409
status_code status_moves_forward = 409
status_code order_cancelled = 409
status_code product_not_found = 404
status_code product_management_required = 403
status_code price_listing_required = 403
status_code user_not_found = 404
status_code integrity_error = 500
status_code type_error = 500
status_code (too_many_attempts _) = 429
status_code _ = 400

pub data Result {ℓ} (A : Type ℓ) : Type ℓ where
  err : HttpError → Result A
  ok : A → Result A

-- `if b: raise e`
abbrev pub raise_if : Bool → HttpError → Result (Unit {0})
raise_if false e = ok tt
raise_if true e = err e

-- `x = ...first(); if not x: raise e`
abbrev pub or_raise {ℓ} : {A : Type ℓ} → Option A → HttpError → Result A
or_raise (some row) e = ok row
or_raise none e = err e

module _ {ℓ κ} {A : Type ℓ} {B : Type κ} where
  infixl 5 ◌>>=◌
  -- What follows runs only where nothing was raised.
  abbrev pub ◌>>=◌ : Result A → (A → Result B) → Result B
  err e >>= rest = err e
  ok x >>= rest = rest x

  -- What a handler that answered a value went through.
  pub >>=-eq-ok :
      (first : Result A) (rest : A → Result B) {y : B}
      → (first >>= rest) ≡ ok y
      → (x : A) × (first ≡ ok x) × (rest x ≡ ok y)
  >>=-eq-ok (err e) rest h = cc
  >>=-eq-ok (ok x) rest h = (x, refl, h)

infixl 5 ◌>>◌
abbrev pub ◌>>◌ {ℓ} : {B : Type ℓ} → Result (Unit {0}) → Result B → Result B
check >> rest = check >>= λ _. rest

pub raise_if-eq-ok : (b : Bool) (e : HttpError) {u : Unit {0}} → raise_if b e ≡ ok u → b ≡ false
raise_if-eq-ok true e h = cc
raise_if-eq-ok false e h = refl

pub or_raise-eq-ok {ℓ} :
    {A : Type ℓ} (o : Option A) (e : HttpError) {a : A} → or_raise o e ≡ ok a → o ≡ some a
or_raise-eq-ok none e h = cc
or_raise-eq-ok (some a) e h = cc

pub ok-injective {ℓ} : {A : Type ℓ} {x y : A} → ok x ≡ ok y → x ≡ y
ok-injective h = cc

-- Inversion of a guard that was passed.
pub guard-eq-ok {ℓ} :
    {A : Type ℓ} {b : Bool} (e : HttpError) {k : Result A} {a : A}
    → (raise_if b e >> k) ≡ ok a
    → (b ≡ false) × (k ≡ ok a)
guard-eq-ok {b = true} e h = cc
guard-eq-ok {b = false} e h = (refl, h)
