-- ===== src/Lines.antt =====
-- app/routers/orders.py: how the lines of a purchase are priced (_component_items,
-- _build_order_lines, _persisted_totals, _compute_discount), over app/models.py::OrderItem and
-- app/schemas.py::OrderItemCreate.
--
-- A paid line and the free lines under it are one `Line`: `parent.components` of the source. The flat
-- list of the source is `flat`, each parent before its components.
pub mod Free
pub mod Amounts
pub mod Kinds
pub mod Forgotten
use ebdental_api.Prelude.{
  ℕ, ◌+◌, ◌-◌, ◌*◌, ◌/◌, Bool, true, false, not, ◌&&◌, Option, none, some, List, [], ◌∷◌, ◌++◌,
  Text, ltb, leb, if◌then◌else◌, is_some, value_or,
}
use ebdental_api.Prelude.Int.{ℤ, pos, pos_part, ◌+ℤ◌}
use ebdental_api.Http.{
  Result, ok, err, no_such_product, not_sold_alone, no_such_promotion, promotion_inactive,
  no_such_set, raise_if, or_raise, ◌>>=◌, ◌>>◌,
}
use ebdental_api.Catalog.{
  Money, dollar, DiscountType, percent, cash, BundleRow, Product, Promotion, Bundle, Catalog,
  Choice,
}
use ebdental_api.Bundles.{bundle_old_price, resolve_set_options, set_contents}

-- OrderItemCreate. Its validator lets exactly one of the three ids through, and each option group at
-- most once.
pub record OrderItemCreate : Type 0 where
  pub product_id : Option ℕ
  pub promotion_id : Option ℕ
  pub set_id : Option ℕ
  pub qty : ℕ
  pub options : List (ℕ × ℕ)

-- The columns of an OrderItem that are filled in before the database sees it.
pub record OrderItem : Type 0 where
  pub product_id : Option ℕ
  pub promotion_id : Option ℕ
  pub set_id : Option ℕ
  pub product_name : Text
  pub product_code : Option Text
  pub uom : Option Text
  pub unit_price : Money
  pub list_price : Money
  pub discount_type : DiscountType
  pub discount : ℕ
  pub qty : ℕ
  pub line_amount : Money
  pub set_options : Option (List (ℕ × ℕ))

pub record Line : Type 0 where
  pub parent : OrderItem
  pub components : List OrderItem

-- The flat list, with `true` on each component: its parent_item_id is set.
abbrev pub mark_components : List OrderItem → List (Bool × OrderItem) → List (Bool × OrderItem)
mark_components [] rest = rest
mark_components (c ∷ cs) rest = (true, c) ∷ mark_components cs rest

abbrev pub flat : List Line → List (Bool × OrderItem)
flat [] = []
flat (l ∷ ls) = (false, l.parent) ∷ mark_components l.components (flat ls)

component : Product → ℕ → OrderItem
component p qty = record {
  product_id = some p.id;
  promotion_id = none;
  set_id = none;
  product_name = p.product_name;
  product_code = p.product_code;
  uom = p.uom;
  unit_price = 0;
  list_price = 0;
  discount_type = percent;
  discount = 0;
  qty = qty;
  line_amount = 0;
  set_options = none;
}

unfoldable pub component_items : Catalog → List BundleRow → ℕ → List OrderItem
unfolding component
component_items cat [] parent_qty = []
component_items cat (row ∷ rows) parent_qty = elim (cat.product row.product_id) [
  | none ↦ component_items cat rows parent_qty
  | some p ↦ component p (row.qty * parent_qty) ∷ component_items cat rows parent_qty
]

-- `old_price - price if old_price and old_price > price else 0`
abbrev pub saving : Option Money → Money → Money
saving none price = 0
saving (some old) price = if ltb price old then old - price else 0

-- `old_price or price`
abbrev pub old_or : Option Money → Money → Money
old_or none price = price
old_or (some old) price = if leb old 0 then price else old

product_line : Catalog → ℕ → ℕ → Result Line
product_line cat product_id qty = do
  product ← or_raise (cat.product product_id) (no_such_product product_id)
  raise_if (not product.is_purchasable) not_sold_alone
  ok (record {
    parent = record {
      product_id = some product.id;
      promotion_id = none;
      set_id = none;
      product_name = product.product_name;
      product_code = product.product_code;
      uom = product.uom;
      unit_price = product.price;
      list_price = product.list_price;
      discount_type = product.discount_type;
      discount = product.discount;
      qty = qty;
      line_amount = product.price * qty;
      set_options = none;
    };
    components = component_items cat product.free_items qty;
  })

promotion_line : Catalog → ℕ → ℕ → ℕ → Result Line
promotion_line cat now promotion_id qty = do
  promotion ← or_raise (cat.promotion promotion_id) no_such_promotion
  raise_if (not (leb promotion.start_date now && leb now promotion.end_date)) promotion_inactive
  let old_price = bundle_old_price cat promotion.old_price promotion.items
  ok (record {
    parent = record {
      product_id = none;
      promotion_id = some promotion.id;
      set_id = none;
      product_name = promotion.promotion_name;
      product_code = none;
      uom = none;
      unit_price = promotion.price;
      list_price = old_or old_price promotion.price;
      discount_type = cash;
      discount = saving old_price promotion.price;
      qty = qty;
      line_amount = promotion.price * qty;
      set_options = none;
    };
    components = component_items cat promotion.items qty;
  })

abbrev options_or_none : List (ℕ × ℕ) → Option (List (ℕ × ℕ))
options_or_none [] = none
options_or_none (o ∷ os) = some (o ∷ os)

-- The set line, once the options are resolved. `max(set_.price + options_delta, 0)` is `pos_part`.
configured_line : Catalog → Bundle → ℕ → List (ℕ × ℕ) → List Choice × ℤ → Line
configured_line cat s qty selections (chosen, options_delta) =
    let unit_price = pos_part (pos s.price +ℤ options_delta) in
    let contents = set_contents s chosen in
    let old_price = bundle_old_price cat s.old_price contents in
    record {
      parent = record {
        product_id = none;
        promotion_id = none;
        set_id = some s.id;
        product_name = s.set_name;
        product_code = none;
        uom = none;
        unit_price = unit_price;
        list_price = old_or old_price unit_price;
        discount_type = cash;
        discount = saving old_price unit_price;
        qty = qty;
        line_amount = unit_price * qty;
        set_options = options_or_none selections;
      };
      components = component_items cat contents qty;
    }

set_line : Catalog → Option Bundle → ℕ → List (ℕ × ℕ) → Result Line
unfolding configured_line
set_line cat found qty selections = do
  s ← or_raise found no_such_set
  resolved ← resolve_set_options cat s selections
  ok (configured_line cat s qty selections resolved)

find_bundle : Catalog → Option ℕ → Option Bundle
find_bundle cat none = none
find_bundle cat (some k) = cat.bundle k

-- The branch on which of the three ids is set.
pick_line : Catalog → ℕ → Option ℕ → Option ℕ → OrderItemCreate → Result Line
unfolding product_line promotion_line set_line find_bundle
pick_line cat now (some product_id) _ line = product_line cat product_id line.qty
pick_line cat now none (some promotion_id) line = promotion_line cat now promotion_id line.qty
pick_line cat now none none line = set_line cat (find_bundle cat line.set_id) line.qty line.options

pub build_line : Catalog → ℕ → OrderItemCreate → Result Line
unfolding pick_line
build_line cat now line = pick_line cat now line.product_id line.promotion_id line

pub record Priced : Type 0 where
  pub items : List Line
  pub subtotal : Money
  pub discountable_subtotal : Money

-- Only a product line is in the base of the order-level discount: neither of the other two ids is set.
abbrev pub is_discountable : OrderItem → Bool
is_discountable item = not (is_some item.promotion_id) && not (is_some item.set_id)

-- `add_line` and the two running totals, in the branch that `line` takes: only that of a product adds to
-- the base of the order-level discount.
add_line : Priced → OrderItemCreate → Line → Priced
add_line acc line l = record {
  items = acc.items ++ l ∷ [];
  subtotal = acc.subtotal + l.parent.line_amount;
  discountable_subtotal =
      if is_some line.product_id
      then acc.discountable_subtotal + l.parent.line_amount
      else acc.discountable_subtotal;
}

build_from : Catalog → ℕ → Priced → List OrderItemCreate → Result Priced
unfolding build_line add_line
build_from cat now acc [] = ok acc
build_from cat now acc (line ∷ lines) = do
  l ← build_line cat now line
  build_from cat now (add_line acc line l) lines

abbrev pub no_lines : Priced
no_lines = record { items = []; subtotal = 0; discountable_subtotal = 0 }

unfoldable pub build_order_lines : Catalog → ℕ → List OrderItemCreate → Result Priced
unfolding build_from
build_order_lines cat now lines = build_from cat now no_lines lines

-- The totals read back off the saved lines; a row with a parent is skipped.
totals_from : Money × Money → List (Bool × OrderItem) → Money × Money
totals_from acc [] = acc
totals_from (subtotal, discountable) ((true, item) ∷ rest) =
    totals_from (subtotal, discountable) rest
totals_from (subtotal, discountable) ((false, item) ∷ rest) =
    totals_from
      (
        subtotal + item.line_amount,
        if is_discountable item then discountable + item.line_amount else discountable,
      )
      rest

pub persisted_totals : List Line → Money × Money
unfolding totals_from
persisted_totals lines = totals_from (0, 0) (flat lines)

-- The figure taken off: `base * value / 100`, or the cash value up to the base. Both are numbers of
-- millionths, so the quotient of the first is by a hundred millions.
unfoldable pub compute_discount : DiscountType → ℕ → Money → Money
compute_discount percent value base = base * value / (100 * dollar)
compute_discount cash value base = if ltb value base then value else base
