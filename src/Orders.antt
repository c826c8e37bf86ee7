-- ===== src/Orders.antt =====
-- app/routers/orders.py: the endpoints that place, pay, refund, delete and list orders. The edit is in the
-- child Update. A handler of the staff's takes the account that its gate, `_perm`, has passed; the child
-- Gated has the gate in front of the edit and of the deletion.
pub mod Payment
pub mod Update
pub mod Steps
pub mod Deleted
pub mod Reach
pub mod Mine
pub mod Gated
pub mod Race
use ebdental_api.Prelude.{
  ℕ, ◌+◌, ◌-◌, ◌*◌, Bool, true, false, not, ◌&&◌, ◌||◌, Option, none, some, List, [], ◌∷◌, ◌++◌,
  Text, ◌==◌, ltb, if◌then◌else◌, is_some, value_or, any, keep_if, Table, rows, insert_row, set_row,
  delete_row,
}
use ebdental_api.Prelude.Int.{ℤ}
use ebdental_api.Http.{
  Result, ok, err, order_not_found, not_your_order, no_qr_payment, already_paid, already_refunded,
  refunded_needs_new_order, nothing_to_refund, khqr_unavailable, field_empty, percent_above_100,
  status_moves_forward, order_cancelled, discount_permission_required, refund_admin_only,
  delete_admin_only, choose_payment_method, use_checkout, integrity_error, raise_if, or_raise,
  ◌>>=◌, ◌>>◌,
}
use ebdental_api.Catalog.{Money, dollar, DiscountType, percent, Catalog}
use ebdental_api.Accounts.{User, Customer, Principal, as_customer, as_user}
use ebdental_api.Lines.{
  OrderItemCreate, Line, build_order_lines, persisted_totals, compute_discount,
}
use ebdental_api.Store.{
  Order, PendingCheckout, Details, Store, Env, Status, pending, confirmed, delivered, cancelled,
  other, same_status, PaymentStatus, unpaid, paid, refunded, PaymentMethod, cash, khqr, quote,
  order_alert, refund_alert, stamp_updated_by, persist, add_alert, next_order_number,
  generate_quote_code,
}
use ebdental_api.Pricing.{OrderCreate, PricedOrder, price_order}
use ebdental_api.Checkout.{website, insert_order, issue_qr, provider_says}

abbrev pub is_paid : Option PaymentStatus → Bool
is_paid (some paid) = true
is_paid _ = false

abbrev pub is_refunded : Option PaymentStatus → Bool
is_refunded (some refunded) = true
is_refunded _ = false

-- A customer has to choose cash here; a staff quote has no payment method.
quote_method : Principal → Option PaymentMethod → Result (Option PaymentMethod)
quote_method (as_user user) method = ok none
quote_method (as_customer customer) none = err choose_payment_method
quote_method (as_customer customer) (some khqr) = err use_checkout
quote_method (as_customer customer) (some cash) = ok (some cash)

abbrev pub user_of : Principal → Option User
user_of (as_user user) = some user
user_of (as_customer customer) = none

abbrev customer_id_of : Principal → Option ℕ
customer_id_of (as_user user) = none
customer_id_of (as_customer customer) = some customer.id

abbrev user_id_of : Principal → Option ℕ
user_id_of (as_user user) = some user.id
user_id_of (as_customer customer) = none

abbrev salesperson_of : Principal → Text
salesperson_of (as_user user) = user.user_name
salesperson_of (as_customer customer) = website

abbrev quoted_by : Principal → Text
quoted_by (as_user user) = user.user_name
quoted_by (as_customer customer) = customer.customer_name

quote_order : Env → OrderCreate → Principal → PricedOrder → ℕ → Option PaymentMethod → Text → Order
quote_order env payload principal p order_number payment_method quote_code = persist env (record {
  order_number = order_number;
  quote_code = quote_code;
  customer_id = customer_id_of principal;
  created_by_user_id = user_id_of principal;
  updated_by_user_id = none;
  details = payload.details;
  salesperson = salesperson_of principal;
  quoted_by_name = quoted_by principal;
  discount_type = payload.discount_type;
  discount_value = payload.discount_value;
  discount_amount = p.discount_amount;
  subtotal = p.subtotal;
  grand_total = p.grand_total;
  status = pending;
  order_type = quote;
  payment_method = payment_method;
  payment_status = none;
  paid_at = none;
  refunded_at = none;
  refund_reason = none;
  khqr_string = none;
  khqr_md5 = none;
  payment_reference = none;
  items = p.items;
})

pub create_order : Catalog → Env → OrderCreate → Principal → Store → Result (ℕ × Store)
unfolding quote_method quote_order
create_order cat env payload principal s = do
  p ← price_order cat env.now payload (user_of principal)
  payment_method ← quote_method principal payload.payment_method
  quote_code ← or_raise (generate_quote_code env s) integrity_error
  placed ←
      insert_order env cat
        (quote_order env payload principal p (next_order_number s) payment_method quote_code) s
  ok (placed.0, add_alert (order_alert placed.0) placed.1)

abbrev pub same_id : Option ℕ → ℕ → Bool
same_id none k = false
same_id (some j) k = j == k

-- The principal who placed the order.
abbrev pub placed_by : Principal → Order → Bool
placed_by (as_customer customer) o = same_id o.customer_id customer.id
placed_by (as_user user) o = same_id o.created_by_user_id user.id

abbrev pub may_watch : Principal → Order → Bool
may_watch (as_customer customer) o = same_id o.customer_id customer.id
may_watch (as_user user) o = same_id o.created_by_user_id user.id || user.price_listing

abbrev is_khqr : Option PaymentMethod → Bool
is_khqr (some khqr) = true
is_khqr _ = false

-- `commit` of an edited row.
abbrev pub save_order : ℕ → Order → Store → Store
save_order i o s = record s { orders = set_row i o s.orders }

-- What the first half of the payment poll comes to.
pub data StatusRead : Type 0 where
  answers : Option PaymentStatus → StatusRead
  seen_paid : StatusRead

-- A paid or refunded order is left alone; about any other the provider is asked.
pub observe_payment : Env → Order → Bool → StatusRead
observe_payment env o true = answers o.payment_status
observe_payment env o false =
    if provider_says env o.khqr_md5 (env.print_order_number o.order_number)
    then seen_paid
    else answers o.payment_status

-- From the read up to the provider's answer.
pub status_read : Env → ℕ → Principal → Store → Result StatusRead
unfolding observe_payment
status_read env i principal s = do
  o ← or_raise (s.orders.row i) order_not_found
  raise_if (not (may_watch principal o)) not_your_order
  raise_if (not (is_khqr o.payment_method)) no_qr_payment
  ok (observe_payment env o (is_paid o.payment_status || is_refunded o.payment_status))

-- After the provider's yes: the UPDATE of two columns of the row, whatever they hold by then. A row that
-- has gone meanwhile is an error.
pub status_write : Env → ℕ → Store → Result (Option PaymentStatus × Store)
status_write env i s = do
  o ← or_raise (s.orders.row i) integrity_error
  ok (
    some paid,
    add_alert (order_alert i)
        (save_order i (record o { payment_status = some paid; paid_at = some env.now }) s),
  )

finish_status : Env → ℕ → StatusRead → Store → Result (Option PaymentStatus × Store)
unfolding status_write
finish_status env i (answers status) s = ok (status, s)
finish_status env i seen_paid s = status_write env i s

-- The whole poll, where nothing else commits between its halves.
pub check_payment_status : Env → ℕ → Principal → Store → Result (Option PaymentStatus × Store)
unfolding finish_status
check_payment_status env i principal s = do
  r ← status_read env i principal s
  finish_status env i r s

-- `order.khqr_string and not khqr_expired(order.khqr_string)`
pub is_payable : Env → Option Text → Bool
is_payable env none = false
is_payable env (some []) = false
is_payable env (some (c ∷ qr)) = not (env.khqr_expired (c ∷ qr))

put_khqr : Env → ℕ → Order → Store → Result (Order × Store)
unfolding issue_qr
put_khqr env i o s = do
  qr ← issue_qr env o.grand_total (env.print_order_number o.order_number)
  let o' = record o {
    khqr_string = some qr.0;
    khqr_md5 = qr.1;
    payment_method = some khqr;
    payment_status = some unpaid;
  }
  ok (o', save_order i o' s)

unfoldable pub generate_order_khqr : Env → ℕ → Store → Result (Order × Store)
unfolding put_khqr is_payable
generate_order_khqr env i s = do
  o ← or_raise (s.orders.row i) order_not_found
  raise_if (is_paid o.payment_status) already_paid
  raise_if (is_refunded o.payment_status) refunded_needs_new_order
  raise_if (not env.khqr_configured) khqr_unavailable
  if is_payable env o.khqr_string then ok (o, s) else put_khqr env i o s

abbrev non_empty : Text → Option Text
non_empty [] = none
non_empty (c ∷ t) = some (c ∷ t)

pub refund_order : Env → ℕ → Option Text → User → Store → Result (Order × Store)
refund_order env i reason current_user s = do
  o ← or_raise (s.orders.row i) order_not_found
  raise_if (not current_user.admin) refund_admin_only
  raise_if (is_refunded o.payment_status) already_refunded
  raise_if (not (is_paid o.payment_status)) nothing_to_refund
  let o' = record o {
    payment_status = some refunded;
    refunded_at = some env.now;
    refund_reason = non_empty (env.strip (value_or reason []));
    updated_by_user_id = some current_user.id;
  }
  ok (o', add_alert (refund_alert i) (save_order i o' s))

-- ON DELETE SET NULL of pending_checkouts.order_id.
unlink_row : ℕ → Option PendingCheckout → Option PendingCheckout
unlink_row i none = none
unlink_row i (some c) =
    some (record c { order_id = if same_id c.order_id i then none else c.order_id })

pub delete_order : ℕ → User → Store → Result Store
unfolding unlink_row
delete_order i current_user s = do
  o ← or_raise (s.orders.row i) order_not_found
  raise_if ((is_paid o.payment_status || is_refunded o.payment_status) && not current_user.admin)
      delete_admin_only
  ok (record s {
    orders = delete_row i s.orders;
    checkouts = record { next = s.checkouts.next; row = λ k. unlink_row i (s.checkouts.row k) };
  })

-- One of the caller's own orders; another's is not told apart from a missing one.
pub get_my_order : ℕ → Principal → Store → Result Order
get_my_order i principal s = do
  o ← or_raise (s.orders.row i) order_not_found
  raise_if (not (placed_by principal o)) order_not_found
  ok o

pub list_my_orders : Principal → Store → List (ℕ × Order)
list_my_orders principal s = keep_if (λ (r : ℕ × Order). placed_by principal r.1) (rows s.orders)
