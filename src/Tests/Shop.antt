-- ===== src/Tests/Shop.antt =====
-- Concrete data: a catalogue with a configurable set, the accounts, a moment at which everything
-- outside the program is written out, and stored data with one parked checkout and one paid order.
use ebdental_api.Prelude.{
  ℕ, ◌*◌, ◌≡◌, refl, true, false, none, some, List, [], ◌∷◌, Text, arith, if◌then◌else◌, leb, ◌==◌,
  ap, sym,
}
use ebdental_api.Prelude.Int.{ℤ, pos, negsuc}
use ebdental_api.Http.{Result, ok, err}
use ebdental_api.Catalog.{Money, dollar, percent, Product, Choice, OptionGroup, Bundle, Catalog}
use ebdental_api.Accounts.{User, Customer, Accounts}
use ebdental_api.Lines.{OrderItemCreate}
use ebdental_api.Store.{
  Details, Order, PendingCheckout, Store, Env, order_alert, pending, confirmed, unpaid, paid, khqr,
  order,
}
use ebdental_api.Store.Codes.{PrintsApart}
use ebdental_api.Snapshot.RoundTrip.{ReadsBack}
use ebdental_api.Pricing.{OrderCreate}
use ebdental_api.Checkout.Linked.{IsSound}

abbrev pub ok_or {ℓ} : {A : Type ℓ} → A → Result A → A
ok_or a (ok b) = b
ok_or a (err e) = a

abbrev pub product : ℕ → ℕ → Product
product id price = record {
  id = id;
  product_name = b'P' ∷ [];
  product_code = none;
  uom = none;
  price = price * dollar;
  list_price = price * dollar;
  discount_type = percent;
  discount = 0;
  is_purchasable = true;
  free_items = record { id = 1; product_id = 2; qty = 1 } ∷ [];
}

abbrev pub small_choice : Choice
small_choice = record {
  id = 1;
  product_id = 1;
  qty = 1;
  price_delta = none;
  is_default = true;
  sort_order = 0;
}

abbrev pub large_choice : Choice
large_choice = record {
  id = 2;
  product_id = 2;
  qty = 1;
  price_delta = some (pos (5 * dollar));
  is_default = false;
  sort_order = 1;
}

abbrev pub slot_group : OptionGroup
slot_group = record {
  id = 7;
  name = [];
  sort_order = 0;
  choices = small_choice ∷ large_choice ∷ [];
}

abbrev pub kit : Bundle
kit = record {
  id = 1;
  set_name = b'K' ∷ [];
  price = 20 * dollar;
  old_price = none;
  items =
      record { id = 1; product_id = 1; qty = 1 } ∷ record { id = 2; product_id = 3; qty = 2 } ∷ [];
  option_groups = slot_group ∷ [];
}

abbrev pub catalog : Catalog
catalog = record {
  product =
      λ i. if i == 1 then some (product 1 10) else if i == 2 then some (product 2 30) else none;
  promotion = λ _. none;
  bundle = λ i. if i == 1 then some kit else none;
}

-- Two of product 1, and the kit with its larger option.
abbrev pub cart : List OrderItemCreate
cart =
    record { product_id = some 1; promotion_id = none; set_id = none; qty = 2; options = [] }
    ∷ record {
      product_id = none;
      promotion_id = none;
      set_id = some 1;
      qty = 1;
      options = (7, 2) ∷ [];
    }
    ∷ []

abbrev pub admin_user : User
admin_user = record {
  id = 1;
  user_name = [];
  is_active = true;
  is_verified = true;
  user_management = true;
  price_listing = true;
  product_management = true;
  customer_management = true;
  admin = true;
}

abbrev pub clerk : User
clerk = record admin_user {
  id = 2;
  product_management = false;
  user_management = false;
  admin = false;
}

abbrev pub shopper : Customer
shopper = record {
  id = 1;
  customer_name = b'C' ∷ [];
  is_active = true;
  is_verified = true;
  access_permission = true;
}

abbrev pub accounts : Accounts
accounts = record {
  user = λ i. if i == 1 then some admin_user else none;
  customer = λ i. if i == 1 then some shopper else none;
}

abbrev str_coordinate : ℤ → Text
str_coordinate (pos n) = n ∷ []
str_coordinate (negsuc n) = b'-' ∷ n ∷ []

abbrev read_coordinate : Text → ℤ
read_coordinate [] = pos 0
read_coordinate (n ∷ []) = pos n
read_coordinate (c ∷ n ∷ _) = negsuc n

abbrev read_decimal : Text → Money
read_decimal [] = 0
read_decimal (n ∷ _) = n

-- A moment at which the bank confirms every payment.
abbrev pub env : Env
env = record {
  catalog = catalog;
  fits_columns = λ x. leb x.qty 2147483647;
  now = 1000;
  time_code = b'T' ∷ [];
  khqr_configured = true;
  is_payway = false;
  expiry_minutes = 5;
  create_payway_khqr = λ _ reference. some reference;
  build_khqr = λ _ reference. (reference, reference);
  khqr_expired = λ _. false;
  check_bakong_payment = λ _. true;
  check_payway_payment = λ _. true;
  print_order_number = λ n. n ∷ [];
  str_int = λ n. n ∷ [];
  str_decimal = λ n. n ∷ [];
  read_decimal = read_decimal;
  str_coordinate = str_coordinate;
  read_coordinate = read_coordinate;
  to_column = λ m. m;
  to_coordinate = λ x. x;
  strip = λ t. t;
}

pub env-PrintsApart : PrintsApart env
env-PrintsApart i j h = cc

read-str_coordinate : (x : ℤ) → read_coordinate (str_coordinate x) ≡ x
read-str_coordinate (pos n) = refl
read-str_coordinate (negsuc n) = refl

str_coordinate-nonempty : (x : ℤ) → str_coordinate x ≡ [] → ⊥
str_coordinate-nonempty (pos n) h = cc
str_coordinate-nonempty (negsuc n) h = cc

pub env-ReadsBack : ReadsBack env env
env-ReadsBack = record {
  decimal = λ m. refl;
  coordinate = read-str_coordinate;
  coordinate_nonempty = str_coordinate-nonempty;
}

abbrev pub details : Details
details = record {
  clinic_name = b'E' ∷ [];
  contact_person = none;
  phone = [];
  address = [];
  latitude = some (negsuc 4);
  longitude = none;
  map_link = none;
  payment_term = none;
  install_term = none;
}

abbrev pub payload : OrderCreate
payload = record {
  details = details;
  discount_type = percent;
  discount_value = 10 * dollar;
  payment_method = some khqr;
  items = cart;
}

abbrev pub parked_checkout : PendingCheckout
parked_checkout = record {
  reference = b'R' ∷ [];
  customer_id = 1;
  snapshot = record {
    clinic_name = b'E' ∷ [];
    contact_person = none;
    phone = [];
    address = [];
    latitude = none;
    longitude = none;
    map_link = none;
    payment_term = none;
    install_term = none;
    salesperson = [];
    quoted_by_name = [];
    discount_type = percent;
    discount_value = 0 ∷ [];
    discount_amount = 0 ∷ [];
    subtotal = 20 ∷ [];
    lines =
        record {
          line = record {
            product_id = some 1;
            promotion_id = none;
            set_id = none;
            product_name = b'P' ∷ [];
            product_code = none;
            uom = none;
            unit_price = 20 ∷ [];
            list_price = 20 ∷ [];
            discount_type = percent;
            discount = 0 ∷ [];
            qty = 1;
            line_amount = 20 ∷ [];
          };
          components = [];
        }
        ∷ [];
  };
  grand_total = 20 * dollar;
  khqr_string = b'Q' ∷ [];
  khqr_md5 = some (b'M' ∷ []);
  expires_at = 2000;
  order_id = none;
}

abbrev pub open_order : Order
open_order = record {
  order_number = 1;
  quote_code = b'T' ∷ [];
  customer_id = some 1;
  created_by_user_id = none;
  updated_by_user_id = none;
  details = details;
  salesperson = [];
  quoted_by_name = [];
  discount_type = percent;
  discount_value = 0;
  discount_amount = 0;
  subtotal = 20 * dollar;
  grand_total = 20 * dollar;
  status = pending;
  order_type = order;
  payment_method = some khqr;
  payment_status = some unpaid;
  paid_at = none;
  refunded_at = none;
  refund_reason = none;
  khqr_string = some (b'Q' ∷ []);
  khqr_md5 = some (b'M' ∷ []);
  payment_reference = none;
  items = [];
}

abbrev pub paid_at_counter : Order
paid_at_counter = record open_order {
  status = confirmed;
  payment_status = some paid;
  paid_at = some 5;
}

-- One order, and one checkout that nobody has paid yet.
abbrev pub store_with : Order → Store
store_with o = record {
  orders = record { next = 2; row = λ i. if i == 1 then some o else none };
  checkouts = record { next = 2; row = λ i. if i == 1 then some parked_checkout else none };
  alerts = [];
}

-- The store where the checkout became the order.
abbrev pub linked_order : Order
linked_order = record paid_at_counter { payment_reference = some (b'R' ∷ []) }

abbrev pub linked_checkout : PendingCheckout
linked_checkout = record parked_checkout { order_id = some 1 }

abbrev pub linked_store : Store
linked_store = record {
  orders = record { next = 2; row = λ i. if i == 1 then some linked_order else none };
  checkouts = record { next = 2; row = λ i. if i == 1 then some linked_checkout else none };
  alerts = order_alert 1 ∷ [];
}

only_one :
    {A : Type 0} {a b : A} (i : ℕ) → (if i == 1 then some a else none) ≡ some b → (i ≡ 1) × (a ≡ b)
only_one i h = ground arith

pub store_with-IsSound :
    (o : Order) → o.order_number ≡ 1 → o.payment_reference ≡ none → IsSound (store_with o)
store_with-IsSound o number free = record {
  orders_allocated = λ i a e. omega (arith, (only_one i e).0);
  checkouts_allocated = λ i a e. omega (arith, (only_one i e).0);
  started = omega arith;
  numbered =
      λ i a e. let (z, q) = only_one i e in omega (arith, ap (λ (x : Order). x.order_number) q);
  references_apart = λ j k c d e f q. omega (arith, (only_one j e).0, (only_one k f).0);
  linked = λ i a r e p. absurd (cc (ap (λ (x : Order). x.payment_reference) (only_one i e).1));
}

pub linked_store-IsSound : IsSound linked_store
linked_store-IsSound = record {
  orders_allocated = λ i a e. omega (arith, (only_one i e).0);
  checkouts_allocated = λ i a e. omega (arith, (only_one i e).0);
  started = omega arith;
  numbered =
      λ i a e. let (z, q) = only_one i e in omega (arith, ap (λ (x : Order). x.order_number) q);
  references_apart = λ j k c d e f q. omega (arith, (only_one j e).0, (only_one k f).0);
  linked = λ i a r e p.
      let (z, q) = only_one i e in
      (
        1,
        linked_checkout,
        record {
          at = refl;
          holds = cc (ap (λ (x : Order). x.payment_reference) q);
          became = ap some (sym z);
        },
      );
}
