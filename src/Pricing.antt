-- ===== src/Pricing.antt =====
-- app/routers/orders.py::_price_order: what a new order or a checkout comes to, over
-- app/schemas.py::OrderCreate, whose validator refuses a percentage above 100.
pub mod Bounds
use ebdental_api.Prelude.{
  ℕ, ◌-◌, Bool, true, false, not, ◌&&◌, Option, none, some, List, ltb, if◌then◌else◌,
}
use ebdental_api.Http.{Result, ok, discount_permission_required, raise_if, ◌>>=◌, ◌>>◌}
use ebdental_api.Catalog.{Money, DiscountType, Catalog}
use ebdental_api.Accounts.{User}
use ebdental_api.Lines.{OrderItemCreate, Line, build_order_lines, compute_discount}
use ebdental_api.Store.{Details, PaymentMethod}

pub record OrderCreate : Type 0 where
  pub details : Details
  pub discount_type : DiscountType
  pub discount_value : ℕ
  pub payment_method : Option PaymentMethod
  pub items : List OrderItemCreate

pub record PricedOrder : Type 0 where
  pub items : List Line
  pub subtotal : Money
  pub discount_amount : Money
  pub grand_total : Money

-- `user is None or not user.product_management`
abbrev pub may_not_discount : Option User → Bool
may_not_discount none = true
may_not_discount (some u) = not u.product_management

unfoldable pub price_order : Catalog → ℕ → OrderCreate → Option User → Result PricedOrder
price_order cat now payload user = do
  raise_if (ltb 0 payload.discount_value && may_not_discount user) discount_permission_required
  p ← build_order_lines cat now payload.items
  let discount_amount =
      compute_discount payload.discount_type payload.discount_value p.discountable_subtotal
  ok (record {
    items = p.items;
    subtotal = p.subtotal;
    discount_amount = discount_amount;
    grand_total = p.subtotal - discount_amount;
  })
