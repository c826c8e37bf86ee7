-- ===== src/Products.antt =====
-- app/routers/products.py: the product rows, and the public reads of the catalogue. Prices and
-- quantities of stock are whole numbers of millionths, moments are numbers.
pub mod Masking
pub mod ListPrice
pub mod Write
pub mod Endpoints
pub mod Changes
use ebdental_api.Prelude.{
  Text, ℕ, Bool, true, false, not, ◌&&◌, ◌||◌, Option, none, some, List, [], ◌∷◌, ◌++◌, map, ltb,
  ◌==◌, if◌then◌else◌, is_some, member, keep_if, length, take, drop, value_or,
}
use ebdental_api.Http.{Result, ok, product_not_found, or_raise, ◌>>=◌}
use ebdental_api.Catalog.{Money, DiscountType, BundleRow}

pub data Section : Type 0 where
  machinery materials spare_parts : Section

pub record Prices : Type 0 where
  pub price : Money
  pub list_price : Money
  pub discount_type : DiscountType
  pub discount : ℕ

-- A row of `products`, with the rows of its free items.
pub record ProductRow : Type 0 where
  pub id : ℕ
  pub product_name : Text
  pub description : Option Text
  pub badge : Option Text
  pub product_code : Option Text
  pub uom : Option Text
  pub section : Section
  pub is_purchasable : Bool
  pub brand_id : ℕ
  pub category_id : Option ℕ
  pub prices : Prices
  pub stock_qty : Option ℕ
  pub delisted_at : Option ℕ
  pub created_at : ℕ
  pub free_items : List BundleRow
  pub updated_by_user_id : Option ℕ

-- ProductOut, where `none` is the "XXXX" of a masked price and the None of the other two figures.
pub record ProductOut : Type 0 where
  pub row : ProductRow
  pub shown_price : Option Money
  pub shown_discount : Option ℕ
  pub shown_list_price : Option Money

abbrev pub no_prices : DiscountType → Prices
no_prices t = record { price = 0; list_price = 0; discount_type = t; discount = 0 }

-- The fields that are sent to everybody.
abbrev pub without_prices : ProductRow → ProductRow
without_prices p = record p { prices = no_prices p.prices.discount_type }

unfoldable pub serialize_product : ProductRow → Bool → ProductOut
serialize_product p can_view_price =
    if can_view_price
    then record {
      row = without_prices p;
      shown_price = some p.prices.price;
      shown_discount = some p.prices.discount;
      shown_list_price = some p.prices.list_price;
    }
    else record {
      row = without_prices p;
      shown_price = none;
      shown_discount = none;
      shown_list_price = none;
    }

-- The query parameters that `_catalog_query` reads.
pub record CatalogFilter : Type 0 where
  pub brand_id : Option ℕ
  pub category_id : Option (List ℕ)
  pub q : Option Text
  -- `none` is "all"
  pub section : Option Section
  pub include_unpurchasable : Bool
  pub include_delisted : Bool

abbrev pub same_section : Section → Section → Bool
same_section machinery machinery = true
same_section materials materials = true
same_section spare_parts spare_parts = true
same_section _ _ = false

abbrev pub in_section : Option Section → Section → Bool
in_section none s = true
in_section (some wanted) s = same_section s wanted

abbrev pub has_brand : Option ℕ → ℕ → Bool
has_brand none b = true
has_brand (some wanted) b = b == wanted

abbrev pub is_one_of : List ℕ → Option ℕ → Bool
is_one_of wanted none = false
is_one_of wanted (some c) = member c wanted

abbrev pub in_categories : Option (List ℕ) → Option ℕ → Bool
in_categories none c = true
in_categories (some []) c = true
in_categories (some (w ∷ ws)) c = is_one_of (w ∷ ws) c

pub data ProductSort : Type 0 where
  name name_desc price_asc price_desc stock_asc stock_desc newest oldest : ProductSort

-- `sort in _PRICE_SORTS`
abbrev pub is_price_sort : ProductSort → Bool
is_price_sort price_asc = true
is_price_sort price_desc = true
is_price_sort _ = false

abbrev pub granted_sort : ProductSort → Bool → ProductSort
granted_sort sort can_view_price = if is_price_sort sort && not can_view_price then name else sort

-- `ilike` is the database's ILIKE of a value and a pattern, `name_before` its order of lower-case
-- names.
module _ (ilike : Text → Text → Bool) (name_before : Text → Text → Bool) where
  abbrev pub code_like : Option Text → Text → Bool
  code_like none needle = false
  code_like (some code) needle = ilike code needle

  abbrev pub is_found : Option Text → ProductRow → Bool
  is_found none p = true
  is_found (some []) p = true
  is_found (some (c ∷ q)) p =
      let needle = b'%' ∷ ((c ∷ q) ++ (b'%' ∷ [])) in
      ilike p.product_name needle || code_like p.product_code needle

  unfoldable pub matches : CatalogFilter → ProductRow → Bool
  matches f p =
      (f.include_unpurchasable || p.is_purchasable)
      && (f.include_delisted || not (is_some p.delisted_at))
      && in_section f.section p.section
      && has_brand f.brand_id p.brand_id
      && in_categories f.category_id p.category_id
      && is_found f.q p

  unfoldable pub catalog_query : CatalogFilter → List ProductRow → List ProductRow
  unfolding matches
  catalog_query f rows = keep_if (matches f) rows

  abbrev pub then_by_id : Bool → Bool → ℕ → ℕ → Bool
  then_by_id before after i j = before || (not after && ltb i j)

  -- Nulls last, upwards or downwards.
  abbrev pub stock_before : Bool → Option ℕ → Option ℕ → Bool
  stock_before up none b = false
  stock_before up (some a) none = true
  stock_before up (some a) (some b) = if up then ltb a b else ltb b a

  -- _SORTS: does the first row come before the second?
  unfoldable pub comes_before : ProductSort → ProductRow → ProductRow → Bool
  comes_before name p r =
      then_by_id (name_before p.product_name r.product_name)
        (name_before r.product_name p.product_name) p.id r.id
  comes_before name_desc p r =
      then_by_id (name_before r.product_name p.product_name)
        (name_before p.product_name r.product_name) p.id r.id
  comes_before price_asc p r =
      then_by_id (ltb p.prices.price r.prices.price) (ltb r.prices.price p.prices.price) p.id r.id
  comes_before price_desc p r =
      then_by_id (ltb r.prices.price p.prices.price) (ltb p.prices.price r.prices.price) p.id r.id
  comes_before stock_asc p r =
      then_by_id (stock_before true p.stock_qty r.stock_qty)
        (stock_before true r.stock_qty p.stock_qty) p.id r.id
  comes_before stock_desc p r =
      then_by_id (stock_before false p.stock_qty r.stock_qty)
        (stock_before false r.stock_qty p.stock_qty) p.id r.id
  comes_before newest p r =
      then_by_id (ltb r.created_at p.created_at) (ltb p.created_at r.created_at) r.id p.id
  comes_before oldest p r =
      then_by_id (ltb p.created_at r.created_at) (ltb r.created_at p.created_at) p.id r.id

  unfoldable pub insert_by : ProductSort → ProductRow → List ProductRow → List ProductRow
  unfolding comes_before
  insert_by sort p [] = p ∷ []
  insert_by sort p (r ∷ rs) = if comes_before sort p r then p ∷ r ∷ rs else r ∷ insert_by sort p rs

  -- ORDER BY
  unfoldable pub order_by : ProductSort → List ProductRow → List ProductRow
  unfolding insert_by
  order_by sort [] = []
  order_by sort (p ∷ ps) = insert_by sort p (order_by sort ps)

  -- GET /products/
  unfoldable pub list_products :
      CatalogFilter → ProductSort → ℕ → ℕ → Bool → List ProductRow → List ProductOut
  unfolding catalog_query order_by serialize_product
  list_products f sort skip limit can_view_price rows =
      map (λ p. serialize_product p can_view_price)
        (take limit
          (drop skip (order_by (granted_sort sort can_view_price) (catalog_query f rows))))

  -- GET /products/count
  unfoldable pub count_products : CatalogFilter → List ProductRow → ℕ
  unfolding catalog_query
  count_products f rows = length (catalog_query f rows)

-- GET /products/{product_id}
unfoldable pub get_product : ℕ → Bool → (ℕ → Option ProductRow) → Result ProductOut
unfolding serialize_product
get_product product_id can_view_price products = do
  product ← or_raise (products product_id) product_not_found
  ok (serialize_product product can_view_price)
