-- ===== src/Products/Write.antt =====
-- The endpoints of app/routers/products.py that write product rows, and the arithmetic of their
-- prices. `Decimal` quotients are rounded once, to the figure that is stored.
use ebdental_api.Prelude.{
  Text, ℕ, ◌+◌, ◌-◌, ◌*◌, ◌/◌, ◌%◌, Bool, true, false, not, ◌&&◌, ◌||◌, Option, none, some, List,
  [], ◌∷◌, ltb, leb, ◌==◌, if◌then◌else◌, any, Table, rows, text_eq, value_or,
}
use ebdental_api.Http.{
  Result, ok, err, integrity_error, type_error, list_below_price, raise_if, or_raise, ◌>>=◌, ◌>>◌,
}
use ebdental_api.Catalog.{Money, cent, DiscountType, percent, cash, BundleRow, Product, Catalog}
use ebdental_api.Bundles.Submit.{Item}
use ebdental_api.Bundles.Reconcile.{Member, kept, added}
use ebdental_api.Products.{Section, Prices, ProductRow}

-- The quotient of two whole numbers to the nearest one, to the even one at a half.
unfoldable pub half_even : ℕ → ℕ → ℕ
half_even n d =
    let q = n / d in
    let r = n % d in if ltb d (2 * r) || (2 * r == d && q % 2 == 1) then q + 1 else q

-- A hundred percent.
abbrev pub hundred : ℕ
hundred = 100000000

unfoldable pub derive_list_price : Money → ℕ → DiscountType → Money
unfolding half_even
derive_list_price price discount cash = price + discount
derive_list_price price discount percent =
    if discount == 0 || leb hundred discount
    then price
    else half_even (price * hundred) ((hundred - discount) * cent) * cent

unfoldable pub resolve_list_price : Option Money → Money → ℕ → DiscountType → Result Money
unfolding derive_list_price
resolve_list_price none price discount t = ok (derive_list_price price discount t)
resolve_list_price (some list_price) price discount t =
    if ltb list_price price then err list_below_price else ok list_price

-- A discount type that was set to null is not "cash".
unfoldable pub discount_from_prices : Money → Money → Option DiscountType → ℕ
unfolding half_even
discount_from_prices list_price price (some cash) = list_price - price
discount_from_prices list_price price _ =
    if leb list_price price then 0 else half_even ((list_price - price) * 10000) list_price * 10000

-- A field of a partial update: left out, null, or a value.
pub data Sent {ℓ} (A : Type ℓ) : Type ℓ where
  unset null : Sent A
  sent : A → Sent A

module _ {ℓ} {A : Type ℓ} where
  -- `k in data`
  abbrev pub is_sent : Sent A → Bool
  is_sent unset = false
  is_sent null = true
  is_sent (sent _) = true

  -- `data.get(k)`
  abbrev pub get : Sent A → Option A
  get unset = none
  get null = none
  get (sent a) = some a

  -- setattr on a column that may be NULL, and on one that may not.
  abbrev pub assign : Sent A → Option A → Option A
  assign unset old = old
  assign null old = none
  assign (sent a) old = some a

  abbrev pub assign_required : Sent A → A → Result A
  assign_required unset old = ok old
  assign_required null old = err integrity_error
  assign_required (sent a) old = ok a

-- `data.get(k, old)`
abbrev pub get_or {ℓ} : {A : Type ℓ} → Sent A → A → Option A
get_or unset old = some old
get_or null old = none
get_or (sent a) old = some a

-- ProductPriceUpdate, and those fields of ProductUpdate.
pub record PriceUpdate : Type 0 where
  pub price : Sent Money
  pub list_price : Sent Money
  pub discount_type : Sent DiscountType
  pub discount : Sent ℕ

abbrev pub touches_price : PriceUpdate → Bool
touches_price u =
    is_sent u.price || is_sent u.list_price || is_sent u.discount || is_sent u.discount_type

abbrev pub is_given {ℓ} : {A : Type ℓ} → Option A → Bool
is_given none = false
is_given (some _) = true

abbrev pub sent_or : Option ℕ → ℕ → Sent ℕ
sent_or (some d) _ = sent d
sent_or none derived = sent derived

-- From the list price on: `given` is whether the caller sent one.
unfoldable pub sync_with : Prices → PriceUpdate → Money → Money → Bool → Result PriceUpdate
unfolding discount_from_prices
sync_with p u price list_price given = do
  raise_if (ltb list_price price && given) list_below_price
  let list_after = if ltb list_price price then price else list_price
  let t = get_or u.discount_type p.discount_type
  ok record u {
    list_price = sent list_after;
    discount = sent_or (get u.discount) (discount_from_prices list_after price t);
  }

-- Decimal(None) raises a TypeError.
unfoldable pub sync_price_fields : Prices → PriceUpdate → Result PriceUpdate
unfolding sync_with
sync_price_fields p u = if not (touches_price u) then ok u else (do
  price ← or_raise (get_or u.price p.price) type_error
  sync_with p u price (value_or (get u.list_price) p.list_price) (is_given (get u.list_price)))

-- ProductUpdate
pub record ProductUpdate : Type 0 where
  pub product_name : Sent Text
  pub description : Sent Text
  pub badge : Sent Text
  pub product_code : Sent Text
  pub uom : Sent Text
  pub section : Sent Section
  pub is_purchasable : Sent Bool
  pub brand_id : Sent ℕ
  pub category_id : Sent ℕ
  pub prices : PriceUpdate
  pub free_items : Sent (List Item)

-- ProductCreate
pub record ProductCreate : Type 0 where
  pub product_name : Text
  pub description : Option Text
  pub badge : Option Text
  pub product_code : Option Text
  pub uom : Option Text
  pub section : Section
  pub is_purchasable : Bool
  pub price : Money
  pub list_price : Option Money
  pub discount_type : DiscountType
  pub discount : ℕ
  pub brand_id : ℕ
  pub category_id : Option ℕ
  pub free_items : List Item

-- The tables, with the next id of product_free_items.
pub record Shop : Type 0 where
  pub products : Table ProductRow
  pub next_free_item : ℕ
  pub brands : ℕ → Bool
  pub categories : ℕ → Bool

abbrev pub as_product : Option ProductRow → Option Product
as_product none = none
as_product (some p) = some record {
  id = p.id;
  product_name = p.product_name;
  product_code = p.product_code;
  uom = p.uom;
  price = p.prices.price;
  list_price = p.prices.list_price;
  discount_type = p.prices.discount_type;
  discount = p.prices.discount;
  is_purchasable = p.is_purchasable;
  free_items = p.free_items;
}

-- The products, as app/core/bundles.py looks them up.
abbrev pub catalog_of : Shop → Catalog
catalog_of s = record {
  product = λ k. as_product (s.products.row k);
  promotion = λ k. none;
  bundle = λ k. none;
}

-- The ids that the database gives to new rows.
pub save_members : ℕ → List Member → List BundleRow
save_members next [] = []
save_members next (kept r ∷ ms) = r ∷ save_members next ms
save_members next (added p qty ∷ ms) =
    record { id = next; product_id = p; qty = qty } ∷ save_members (next + 1) ms

abbrev pub new_member : Item → Member
new_member (p, qty) = added p qty

abbrev pub has_code : Text → Option Text → Bool
has_code code none = false
has_code code (some c) = text_eq c code

abbrev pub is_own : Option ℕ → ℕ → Bool
is_own none k = false
is_own (some own) k = own == k

-- Another product with this code.
abbrev pub code_taken : Shop → Option ℕ → Text → Bool
code_taken s own code =
    any (λ (r : ℕ × ProductRow). has_code code r.1.product_code && not (is_own own r.0))
      (rows s.products)
