-- ===== src/Store.antt =====
-- The orders and the pending checkouts (app/models.py::Order, PendingCheckout), the alerts that a
-- request leaves to a background task, and everything outside the program that the endpoints ask.
--
-- A request that raises commits nothing: app/database.py::get_db closes the session, which rolls it
-- back. So an endpoint answers an error, or a value with the new store.
pub mod Codes
use mathlib.Core.Option.{map as map_option}
use ebdental_api.Prelude.{
  ℕ, zero, suc, ◌+◌, Bool, true, false, not, Option, none, some, List, [], ◌∷◌, ◌++◌, Text, ◌==◌,
  if◌then◌else◌, any, text_eq, Table, rows, set_row, insert_row,
}
use ebdental_api.Prelude.Int.{ℤ}
use ebdental_api.Catalog.{Money, DiscountType, Catalog}
use ebdental_api.Accounts.{User, Accounts}
use ebdental_api.Lines.{OrderItem, Line}

-- The workflow status is free text; these are the values that the code names.
pub data Status : Type 0 where
  pending confirmed delivered cancelled : Status
  other : Text → Status

abbrev pub same_status : Status → Status → Bool
same_status pending pending = true
same_status confirmed confirmed = true
same_status delivered delivered = true
same_status cancelled cancelled = true
same_status (other a) (other b) = text_eq a b
same_status _ _ = false

pub data PaymentStatus : Type 0 where
  unpaid paid refunded : PaymentStatus

pub data PaymentMethod : Type 0 where
  cash khqr : PaymentMethod

pub data OrderType : Type 0 where
  quote order : OrderType

-- The clinic and contact details that a payload, a snapshot and an order share.
pub record Details : Type 0 where
  pub clinic_name : Text
  pub contact_person : Option Text
  pub phone : Text
  pub address : Text
  pub latitude : Option ℤ
  pub longitude : Option ℤ
  pub map_link : Option Text
  pub payment_term : Option Text
  pub install_term : Option Text

-- `order_number` is the number that is printed with six digits.
pub record Order : Type 0 where
  pub order_number : ℕ
  pub quote_code : Text
  pub customer_id : Option ℕ
  pub created_by_user_id : Option ℕ
  pub updated_by_user_id : Option ℕ
  pub details : Details
  pub salesperson : Text
  pub quoted_by_name : Text
  pub discount_type : DiscountType
  pub discount_value : ℕ
  pub discount_amount : Money
  pub subtotal : Money
  pub grand_total : Money
  pub status : Status
  pub order_type : OrderType
  pub payment_method : Option PaymentMethod
  pub payment_status : Option PaymentStatus
  pub paid_at : Option ℕ
  pub refunded_at : Option ℕ
  pub refund_reason : Option Text
  pub khqr_string : Option Text
  pub khqr_md5 : Option Text
  pub payment_reference : Option Text
  pub items : List Line

-- A line as the JSON of a snapshot holds it: each Decimal as a string (app/routers/orders.py,
-- _SNAPSHOT_LINE_FIELDS).
pub record LineJson : Type 0 where
  pub product_id : Option ℕ
  pub promotion_id : Option ℕ
  pub set_id : Option ℕ
  pub product_name : Text
  pub product_code : Option Text
  pub uom : Option Text
  pub unit_price : Text
  pub list_price : Text
  pub discount_type : DiscountType
  pub discount : Text
  pub qty : ℕ
  pub line_amount : Text

pub record RowJson : Type 0 where
  pub line : LineJson
  pub components : List LineJson

pub record Snapshot : Type 0 where
  pub clinic_name : Text
  pub contact_person : Option Text
  pub phone : Text
  pub address : Text
  pub latitude : Option Text
  pub longitude : Option Text
  pub map_link : Option Text
  pub payment_term : Option Text
  pub install_term : Option Text
  pub salesperson : Text
  pub quoted_by_name : Text
  pub discount_type : DiscountType
  pub discount_value : Text
  pub discount_amount : Text
  pub subtotal : Text
  pub lines : List RowJson

pub record PendingCheckout : Type 0 where
  pub reference : Text
  pub customer_id : ℕ
  pub snapshot : Snapshot
  pub grand_total : Money
  pub khqr_string : Text
  pub khqr_md5 : Option Text
  pub expires_at : ℕ
  pub order_id : Option ℕ

-- What a request leaves to a background task: deliver_order_alert, the heads-up of a checkout
-- (send_khqr_pending_alert_for_checkout) and send_refund_alert.
pub data Alert : Type 0 where
  order_alert : ℕ → Alert
  khqr_pending : Text → Alert
  refund_alert : ℕ → Alert

pub record Store : Type 0 where
  pub orders : Table Order
  pub checkouts : Table PendingCheckout
  pub alerts : List Alert

-- What the endpoints ask of the outside at one moment: the clock, in microseconds, the settings
-- (app/config.py), the two payment providers, the KHQR builder, and Python's and the database's
-- treatment of numbers. `to_column` is the rounding of a Numeric(10, 2) column, and `to_coordinate` that of
-- a Numeric(9, 6) one. `catalog` is the catalogue as it is when an order is written from a snapshot, and `fits_columns`
-- tells whether the values of a row of order_items are within the ranges of its columns.
pub record Env : Type 0 where
  pub catalog : Catalog
  pub fits_columns : OrderItem → Bool
  pub now : ℕ
  pub time_code : Text
  pub khqr_configured : Bool
  pub is_payway : Bool
  pub expiry_minutes : ℕ
  pub create_payway_khqr : Money → Text → Option Text
  pub build_khqr : Money → Text → Text × Text
  pub khqr_expired : Text → Bool
  pub check_bakong_payment : Text → Bool
  pub check_payway_payment : Text → Bool
  pub print_order_number : ℕ → Text
  pub str_int : ℕ → Text
  pub str_decimal : Money → Text
  pub read_decimal : Text → Money
  pub str_coordinate : ℤ → Text
  pub read_coordinate : Text → ℤ
  pub to_column : Money → Money
  pub to_coordinate : ℤ → ℤ
  pub strip : Text → Text

-- `stamp_updated_by` of app/core/audit.py.
abbrev pub stamp_updated_by : Option User → Order → Order
stamp_updated_by none o = o
stamp_updated_by (some u) o = record o { updated_by_user_id = some u.id }

-- What the coordinate columns hold after a commit and a refresh.
abbrev pub persist_details : Env → Details → Details
persist_details env d = record d {
  latitude = map_option env.to_coordinate d.latitude;
  longitude = map_option env.to_coordinate d.longitude;
}

-- What the money and the coordinate columns hold after a commit and a refresh.
abbrev pub persist : Env → Order → Order
persist env o = record o {
  details = persist_details env o.details;
  discount_value = env.to_column o.discount_value;
  discount_amount = env.to_column o.discount_amount;
  subtotal = env.to_column o.subtotal;
  grand_total = env.to_column o.grand_total;
}

abbrev pub add_alert : Alert → Store → Store
add_alert a s = record s { alerts = s.alerts ++ a ∷ [] }

abbrev pub last_number : List (ℕ × Order) → ℕ
last_number [] = 1
last_number ((id, _) ∷ _) = id + 1

-- One more than the greatest id in the table, or 1.
unfoldable pub next_order_number : Store → ℕ
next_order_number s = last_number (rows s.orders)

-- `base`, then `base-2`, `base-3`, …
unfoldable pub candidate : Env → ℕ → Text
candidate env k = if k == 1 then env.time_code else env.time_code ++ b'-' ∷ env.str_int k

-- The loop of _generate_quote_code and _next_checkout_reference, on fuel.
unfoldable pub first_free : ℕ → Env → (Text → Bool) → ℕ → Option Text
unfolding candidate
first_free zero env taken k = none
first_free (suc fuel) env taken k = elim (taken (candidate env k)) [
  | true ↦ first_free fuel env taken (k + 1)
  | false ↦ some (candidate env k)
]

abbrev pub quote_code_taken : Store → Text → Bool
quote_code_taken s code = any (λ (r : ℕ × Order). text_eq r.1.quote_code code) (rows s.orders)

abbrev pub reference_taken : Store → Text → Bool
reference_taken s code =
    any (λ (r : ℕ × PendingCheckout). text_eq r.1.reference code) (rows s.checkouts)

unfoldable pub generate_quote_code : Env → Store → Option Text
generate_quote_code env s = first_free (s.orders.next + 1) env (quote_code_taken s) 1

unfoldable pub next_checkout_reference : Env → Store → Option Text
next_checkout_reference env s = first_free (s.checkouts.next + 1) env (reference_taken s) 1
