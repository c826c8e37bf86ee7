-- ===== src/Checkout.antt =====
-- app/routers/orders.py: the pay-by-QR purchase. create_checkout parks a priced cart; the browser's
-- poll (check_checkout_payment), a member of staff (confirm_checkout_manually) or the background
-- sweep (app/services/checkout_sweep.py) turns it into a paid order through _materialize_checkout.
--
-- The poll and the sweep ask the provider between reading a checkout and locking it, and other
-- requests may commit meanwhile; each of the two halves is a function of its own here.
pub mod Linked
pub mod Preserved
pub mod Once
pub mod Materialize
pub mod Sweep
pub mod Parked
pub mod Reconciled
pub mod Faithful
pub mod Polled
use ebdental_api.Prelude.{
  ℕ, zero, suc, ◌+◌, ◌-◌, ◌*◌, Bool, true, false, not, ◌&&◌, ◌||◌, Option, none, some, List, [],
  ◌∷◌, ◌++◌, map, Text, ◌==◌, ltb, if◌then◌else◌, is_some, any, keep_if, text_eq, Table, rows,
  insert_row, set_row,
}
use ebdental_api.Http.{
  Result, ok, err, staff_cart, khqr_unavailable, khqr_refused, checkout_not_found, integrity_error,
  raise_if, or_raise, ◌>>=◌, ◌>>◌,
}
use ebdental_api.Catalog.{Money, Catalog}
use ebdental_api.Accounts.{User, Customer, Principal, as_customer, as_user}
use ebdental_api.Store.{
  Order, PendingCheckout, Snapshot, RowJson, LineJson, Details, Store, Env, Alert, order_alert,
  khqr_pending, order, khqr, paid, pending, stamp_updated_by, persist, add_alert, next_order_number,
  generate_quote_code, next_checkout_reference, first_free, reference_taken, quote_code_taken,
}
use ebdental_api.Snapshot.Keys.{lines_fit}
use ebdental_api.Snapshot.{snapshot_lines, restore_lines, str_or_none, snap_decimal}
use ebdental_api.Pricing.{OrderCreate, PricedOrder, price_order}

-- "Website"
abbrev pub website : Text
website = b'W' ∷ b'e' ∷ b'b' ∷ b's' ∷ b'i' ∷ b't' ∷ b'e' ∷ []

-- `timedelta(minutes=…)`, in microseconds.
abbrev pub minutes : ℕ → ℕ
minutes n = n * 60000000

abbrev pub number_taken : Store → ℕ → Bool
number_taken s n = any (λ (r : ℕ × Order). r.1.order_number == n) (rows s.orders)

-- The INSERT of an order and of its lines: the unique constraints on order_number and quote_code stand,
-- and so do the foreign keys of the lines and the ranges of their columns. A DataError is not told
-- apart from an IntegrityError.
pub insert_order : Env → Catalog → Order → Store → Result (ℕ × Store)
insert_order env cat o s = do
  raise_if (number_taken s o.order_number || quote_code_taken s o.quote_code) integrity_error
  raise_if (not (lines_fit env cat o.items)) integrity_error
  ok (s.orders.next, record s { orders = insert_row o s.orders })

-- The order that a checkout was holding.
pub paid_order : Env → PendingCheckout → Option User → ℕ → Text → Order
paid_order env c confirmed_by order_number quote_code =
    let snap = c.snapshot in
    persist env (
      stamp_updated_by confirmed_by (record {
        order_number = order_number;
        quote_code = quote_code;
        customer_id = some c.customer_id;
        created_by_user_id = none;
        updated_by_user_id = none;
        details = record {
          clinic_name = snap.clinic_name;
          contact_person = snap.contact_person;
          phone = snap.phone;
          address = snap.address;
          latitude = snap_decimal env snap.latitude;
          longitude = snap_decimal env snap.longitude;
          map_link = snap.map_link;
          payment_term = snap.payment_term;
          install_term = snap.install_term;
        };
        salesperson = snap.salesperson;
        quoted_by_name = snap.quoted_by_name;
        discount_type = snap.discount_type;
        discount_value = env.read_decimal snap.discount_value;
        discount_amount = env.read_decimal snap.discount_amount;
        subtotal = env.read_decimal snap.subtotal;
        grand_total = c.grand_total;
        status = pending;
        order_type = order;
        payment_method = some khqr;
        payment_status = some paid;
        paid_at = some env.now;
        refunded_at = none;
        refund_reason = none;
        khqr_string = some c.khqr_string;
        khqr_md5 = c.khqr_md5;
        payment_reference = some c.reference;
        items = restore_lines env snap.lines;
      }))

-- Writes the order and links the checkout to it; answers the order's id. The caller has locked the
-- row `k` and seen that it has no order.
pub materialize_checkout : Env → ℕ → PendingCheckout → Option User → Store → Result (ℕ × Store)
unfolding paid_order insert_order generate_quote_code next_order_number first_free
materialize_checkout env k c confirmed_by s = do
  quote_code ← or_raise (generate_quote_code env s) integrity_error
  placed ←
      insert_order env env.catalog (paid_order env c confirmed_by (next_order_number s) quote_code)
        s
  ok (
    placed.0,
    record placed.1 {
      checkouts = set_row k (record c { order_id = some placed.0 }) placed.1.checkouts;
    },
  )

-- A stored md5 means Bakong-direct; its absence means PayWay.
unfoldable pub provider_says : Env → Option Text → Text → Bool
provider_says env (some []) reference = env.check_payway_payment reference
provider_says env (some (c ∷ md5)) reference = env.check_bakong_payment (c ∷ md5)
provider_says env none reference = env.check_payway_payment reference

unfoldable pub checkout_is_paid : Env → PendingCheckout → Bool
unfolding provider_says
checkout_is_paid env c = provider_says env c.khqr_md5 c.reference

-- The two providers: PayWay makes the QR and leaves the md5 NULL, Bakong-direct builds it here.
unfoldable pub issue_qr : Env → Money → Text → Result (Text × Option Text)
issue_qr env amount reference =
    if env.is_payway
    then (do
      payload ← or_raise (env.create_payway_khqr amount reference) khqr_refused
      ok (payload, none))
    else ok ((env.build_khqr amount reference).0, some (env.build_khqr amount reference).1)

checkout_row :
    Env → OrderCreate → Customer → PricedOrder → Text → Text × Option Text → PendingCheckout
checkout_row env payload customer p reference (khqr_string, khqr_md5) =
    let d = payload.details in
    record {
      reference = reference;
      customer_id = customer.id;
      snapshot = record {
        clinic_name = d.clinic_name;
        contact_person = d.contact_person;
        phone = d.phone;
        address = d.address;
        latitude = str_or_none env d.latitude;
        longitude = str_or_none env d.longitude;
        map_link = d.map_link;
        payment_term = d.payment_term;
        install_term = d.install_term;
        salesperson = website;
        quoted_by_name = customer.customer_name;
        discount_type = payload.discount_type;
        discount_value = env.str_decimal payload.discount_value;
        discount_amount = env.str_decimal p.discount_amount;
        subtotal = env.str_decimal p.subtotal;
        lines = snapshot_lines env p.items;
      };
      grand_total = env.to_column p.grand_total;
      khqr_string = khqr_string;
      khqr_md5 = khqr_md5;
      expires_at = env.now + minutes env.expiry_minutes;
      order_id = none;
    }

unfoldable pub create_checkout :
    Catalog → Env → OrderCreate → Principal → Store → Result (PendingCheckout × Store)
unfolding issue_qr checkout_row next_checkout_reference first_free
create_checkout cat env payload (as_user user) s = err staff_cart
create_checkout cat env payload (as_customer customer) s = do
  raise_if (not env.khqr_configured) khqr_unavailable
  p ← price_order cat env.now payload none
  reference ← or_raise (next_checkout_reference env s) integrity_error
  qr ← issue_qr env p.grand_total reference
  let c = checkout_row env payload customer p reference qr
  ok (c, add_alert (khqr_pending reference) (record s { checkouts = insert_row c s.checkouts }))

-- CheckoutStatusOut, with the order of a paid one.
pub data CheckoutStatus : Type 0 where
  checkout_paid : ℕ → CheckoutStatus
  checkout_expired checkout_unpaid : CheckoutStatus

-- What the first half of the poll comes to.
pub data PollRead : Type 0 where
  reports : CheckoutStatus → PollRead
  confirmed_paid : PollRead

abbrev pub owns_checkout : Principal → PendingCheckout → Bool
owns_checkout (as_customer customer) c = c.customer_id == customer.id
owns_checkout (as_user user) c = user.price_listing

pub poll_unpaid : Env → PendingCheckout → CheckoutStatus
poll_unpaid env c = if ltb c.expires_at env.now then checkout_expired else checkout_unpaid

poll_open : Env → PendingCheckout → Option ℕ → PollRead
unfolding poll_unpaid
poll_open env c (some order_id) = reports (checkout_paid order_id)
poll_open env c none =
    if checkout_is_paid env c then confirmed_paid else reports (poll_unpaid env c)

-- From the read up to the provider's answer.
poll_read : Env → ℕ → Principal → Store → Result PollRead
unfolding poll_open
poll_read env k principal s = do
  c ← or_raise (s.checkouts.row k) checkout_not_found
  raise_if (not (owns_checkout principal c)) checkout_not_found
  ok (poll_open env c c.order_id)

-- With the row locked: the existing order, or a new one and its alert.
pub settle : Env → ℕ → PendingCheckout → Option ℕ → Option User → Store → Result (ℕ × Store)
unfolding materialize_checkout
settle env k c (some order_id) confirmed_by s = ok (order_id, s)
settle env k c none confirmed_by s = do
  placed ← materialize_checkout env k c confirmed_by s
  ok (placed.0, add_alert (order_alert placed.0) placed.1)

-- From the lock on. A row that has gone meanwhile is `None`, whose attribute is an error.
pub poll_lock : Env → ℕ → Store → Result (ℕ × Store)
unfolding settle
poll_lock env k s = do
  locked ← or_raise (s.checkouts.row k) integrity_error
  settle env k locked locked.order_id none s

pub confirm_checkout_manually : Env → ℕ → User → Store → Result (ℕ × Store)
unfolding settle
confirm_checkout_manually env k current_user s = do
  locked ← or_raise (s.checkouts.row k) checkout_not_found
  settle env k locked locked.order_id (some current_user) s

finish_poll : Env → ℕ → PollRead → Store → Result (CheckoutStatus × Store)
finish_poll env k (reports status) s = ok (status, s)
finish_poll env k confirmed_paid s = do
  placed ← poll_lock env k s
  ok (checkout_paid placed.0, placed.1)

-- The whole poll, where nothing else commits between its halves.
pub check_checkout_payment : Env → ℕ → Principal → Store → Result (CheckoutStatus × Store)
unfolding finish_poll
check_checkout_payment env k principal s = do r ← poll_read env k principal s; finish_poll env k r s

-- The checkouts that have not become an order, newest first.
list_pending_checkouts : Store → List (ℕ × PendingCheckout)
list_pending_checkouts s =
    keep_if (λ (r : ℕ × PendingCheckout). not (is_some r.1.order_id)) (rows s.checkouts)

-- The sweep's lock on one outstanding checkout. An exception rolls back and is logged; a row that
-- has gone or has its order is left alone.
sweep_locked : Env → ℕ → Option PendingCheckout → Store → Result (ℕ × Store)
unfolding settle
sweep_locked env k none s = ok (0, s)
sweep_locked env k (some locked) s = settle env k locked locked.order_id none s

store_after : Store → Result (ℕ × Store) → Store
store_after s (ok (_, s')) = s'
store_after s (err _) = s

unfoldable pub sweep_lock : Env → ℕ → Store → Store
unfolding sweep_locked store_after
sweep_lock env k s = store_after s (sweep_locked env k (s.checkouts.row k) s)

-- `expires_at > now - timedelta(minutes=GRACE_MINUTES)`
unfoldable pub is_outstanding : Env → PendingCheckout → Bool
is_outstanding env c = not (is_some c.order_id) && ltb env.now (c.expires_at + minutes 30)

-- `expires_at < now - timedelta(hours=RETAIN_HOURS)`
is_dead : Env → PendingCheckout → Bool
is_dead env c = not (is_some c.order_id) && ltb (c.expires_at + minutes (24 * 60)) env.now

sweep_each : Env → List (ℕ × PendingCheckout) → Store → Store
sweep_each env [] s = s
sweep_each env ((k, c) ∷ rest) s =
    sweep_each env rest (if checkout_is_paid env c then sweep_lock env k s else s)

prune_row : Env → Option PendingCheckout → Option PendingCheckout
unfolding is_dead
prune_row env none = none
prune_row env (some c) = if is_dead env c then none else some c

pub prune : Env → Store → Store
unfolding prune_row
prune env s = record s {
  checkouts = record { next = s.checkouts.next; row = λ k. prune_row env (s.checkouts.row k) };
}

-- One pass of the sweep, where nothing else commits during it.
pub reconcile_once : Env → Store → Store
unfolding sweep_each is_outstanding prune
reconcile_once env s = prune env (
    sweep_each env
      (keep_if (λ (r : ℕ × PendingCheckout). is_outstanding env r.1) (rows s.checkouts)) s)
