-- ===== src/Orders/Update.antt =====
-- app/routers/orders.py::update_order, with app/schemas.py::OrderUpdate. `_reject_if_paid` does nothing and
-- is left out.
pub mod Edit
pub mod Rules
pub mod Bypass
use ebdental_api.Prelude.{
  ℕ, ◌+◌, ◌-◌, ◌*◌, Bool, true, false, not, ◌&&◌, ◌||◌, Option, none, some, List, [], ◌∷◌, ◌++◌,
  Text, ◌==◌, ltb, if◌then◌else◌, is_some, value_or, any, keep_if, Table, rows, insert_row, set_row,
  delete_row,
}
use ebdental_api.Prelude.Int.{ℤ}
use ebdental_api.Http.{
  Result, ok, err, order_not_found, not_your_order, no_qr_payment, already_paid, already_refunded,
  refunded_needs_new_order, nothing_to_refund, khqr_unavailable, field_empty, percent_above_100,
  status_moves_forward, order_cancelled, discount_permission_required, refund_admin_only,
  delete_admin_only, choose_payment_method, use_checkout, integrity_error, raise_if, or_raise,
  ◌>>=◌, ◌>>◌,
}
use ebdental_api.Catalog.{Money, dollar, DiscountType, percent, Catalog}
use ebdental_api.Accounts.{User, Customer, Principal, as_customer, as_user}
use ebdental_api.Lines.{
  OrderItemCreate, Line, build_order_lines, persisted_totals, compute_discount,
}
use ebdental_api.Store.{
  Order, PendingCheckout, Details, Store, Env, Status, pending, confirmed, delivered, cancelled,
  other, same_status, PaymentStatus, unpaid, paid, refunded, PaymentMethod, cash, khqr, quote,
  order_alert, refund_alert, stamp_updated_by, persist, add_alert, next_order_number,
  generate_quote_code,
}
use ebdental_api.Pricing.{OrderCreate, PricedOrder, price_order}
use ebdental_api.Checkout.{website, insert_order, issue_qr, provider_says}
use ebdental_api.Orders.{is_paid, is_refunded, save_order}

-- A field of OrderUpdate: not sent, sent as null, or sent with a value.
abbrev pub Field {ℓ} : Type ℓ → Type ℓ
Field A = Option (Option A)

pub record OrderUpdate : Type 0 where
  pub status : Field Status
  pub payment_status : Field PaymentStatus
  pub clinic_name : Field Text
  pub contact_person : Field Text
  pub phone : Field Text
  pub address : Field Text
  pub latitude : Field ℤ
  pub longitude : Field ℤ
  pub map_link : Field Text
  pub payment_term : Field Text
  pub install_term : Field Text
  pub discount_type : Field DiscountType
  pub discount_value : Field ℕ
  pub items : Field (List OrderItemCreate)

module _ {ℓ} {A : Type ℓ} where
  abbrev pub is_null : Field A → Bool
  is_null (some none) = true
  is_null _ = false

  -- `fields.get(name, current)` for a column that is never null.
  abbrev pub new_value : Field A → A → A
  new_value none current = current
  new_value (some none) current = current
  new_value (some (some a)) current = a

  -- `setattr(order, name, value)` for a nullable column.
  abbrev pub new_nullable : Field A → Option A → Option A
  new_nullable none current = current
  new_nullable (some a) current = a

-- The loop over the fields: an explicit null only for a nullable column.
pub has_empty_field : OrderUpdate → Bool
has_empty_field f =
    is_null f.status
    || is_null f.clinic_name
    || is_null f.phone
    || is_null f.address
    || is_null f.discount_type
    || is_null f.discount_value

-- _STATUS_LADDER and _status_rank.
pub status_rank : Status → Option ℕ
status_rank pending = some 0
status_rank confirmed = some 1
status_rank delivered = some 2
status_rank cancelled = none
status_rank (other _) = none

-- `current_rank is None or new_rank is None or new_rank < current_rank`
pub not_forward : Option ℕ → Option ℕ → Bool
not_forward none _ = true
not_forward (some a) none = true
not_forward (some a) (some b) = ltb b a

pub moves_wrongly : Order → Status → Bool
unfolding not_forward status_rank
moves_wrongly o new =
    is_paid o.payment_status
    && not (same_status new o.status)
    && not_forward (status_rank o.status) (status_rank new)

pub is_cancelled : Status → Bool
is_cancelled cancelled = true
is_cancelled _ = false

abbrev pub sets_paid : OrderUpdate → Bool
sets_paid f = elim f.payment_status [ none ↦ false | some v ↦ is_paid v ]

abbrev pub is_percent : DiscountType → Bool
is_percent percent = true
is_percent _ = false

-- The checks of update_order, in their order.
pub check_update : OrderUpdate → User → Order → Result (Unit {0})
unfolding has_empty_field moves_wrongly is_cancelled
check_update f user o = do
  raise_if (has_empty_field f) field_empty
  raise_if (moves_wrongly o (new_value f.status o.status)) status_moves_forward
  raise_if (sets_paid f && is_cancelled (new_value f.status o.status)) order_cancelled
  raise_if (ltb 0 (new_value f.discount_value 0) && not user.product_management)
      discount_permission_required
  raise_if
      (is_percent (new_value f.discount_type o.discount_type)
        && ltb (100 * dollar) (new_value f.discount_value o.discount_value))
      percent_above_100

-- The reversal of a refund is cleared where the payment status is sent, and then the `setattr` loop.
unfoldable pub apply_fields : OrderUpdate → Order → Order
apply_fields f o =
    let undo = is_refunded o.payment_status && is_some f.payment_status in
    let d = o.details in
    record o {
      refunded_at = if undo then none else o.refunded_at;
      refund_reason = if undo then none else o.refund_reason;
      status = new_value f.status o.status;
      payment_status = new_nullable f.payment_status o.payment_status;
      discount_type = new_value f.discount_type o.discount_type;
      discount_value = new_value f.discount_value o.discount_value;
      details = record {
        clinic_name = new_value f.clinic_name d.clinic_name;
        contact_person = new_nullable f.contact_person d.contact_person;
        phone = new_value f.phone d.phone;
        address = new_value f.address d.address;
        latitude = new_nullable f.latitude d.latitude;
        longitude = new_nullable f.longitude d.longitude;
        map_link = new_nullable f.map_link d.map_link;
        payment_term = new_nullable f.payment_term d.payment_term;
        install_term = new_nullable f.install_term d.install_term;
      };
    }

-- The new figures; a QR for another amount is dropped. The new total is not rounded yet when it is
-- compared with the stored one.
pub reprice : Money × Money → Order → Order
reprice (subtotal, discountable) o =
    let discount_amount = compute_discount o.discount_type o.discount_value discountable in
    let grand_total = subtotal - discount_amount in
    let same = grand_total == o.grand_total in
    record o {
      discount_amount = discount_amount;
      subtotal = subtotal;
      grand_total = grand_total;
      khqr_string = if same then o.khqr_string else none;
      khqr_md5 = if same then o.khqr_md5 else none;
    }

replace_items : Catalog → ℕ → List OrderItemCreate → Order → Result Order
unfolding reprice
replace_items cat now lines o = do
  p ← build_order_lines cat now lines
  ok (reprice (p.subtotal, p.discountable_subtotal) (record o { items = p.items }))

pub update_lines : Catalog → ℕ → OrderUpdate → Field (List OrderItemCreate) → Order → Result Order
unfolding replace_items
update_lines cat now f (some (some lines)) o = replace_items cat now lines o
update_lines cat now f _ o =
    if is_some f.discount_type || is_some f.discount_value
    then ok (reprice (persisted_totals o.items) o)
    else ok o

unfoldable pub stamp_paid : Env → Bool → Order → Order
stamp_paid env true o = record o { paid_at = some env.now }
stamp_paid env false o = o

abbrev pub alert_if : Bool → ℕ → Store → Store
alert_if true i s = add_alert (order_alert i) s
alert_if false i s = s

unfoldable pub update_order :
    Catalog → Env → ℕ → OrderUpdate → User → Store → Result (Order × Store)
unfolding check_update apply_fields update_lines stamp_paid
update_order cat env i f current_user s = do
  o ← or_raise (s.orders.row i) order_not_found
  check_update f current_user o
  edited ← update_lines cat env.now f f.items (apply_fields f o)
  let saved =
      persist env (stamp_updated_by (some current_user) (stamp_paid env (sets_paid f) edited))
  ok (saved, alert_if (sets_paid f) i (save_order i saved s))
