-- ===== src/Tests/Goods.antt =====
-- A chair and a lamp in the catalogue, read by a stranger and repriced by the admin.
use ebdental_api.Prelude.{
  Text, ℕ, ◌-◌, ◌*◌, Bool, true, false, Option, none, some, [], ◌∷◌, ◌≡◌, refl, arith, length, ltb,
  ◌==◌, if◌then◌else◌, text_eq,
}
use ebdental_api.Http.{ok}
use ebdental_api.Catalog.{Money, dollar, percent}
use ebdental_api.Accounts.{Claims, User, user_token, get_verified_user, require_permission}
use ebdental_api.Products.{
  Prices, ProductRow, CatalogFilter, machinery, price_asc, name, list_products, count_products,
}
use ebdental_api.Products.Masking.{list_products-masked, length-list_products}
use ebdental_api.Products.Write.{
  Shop, PriceUpdate, ProductUpdate, unset, sent, touches_price, derive_list_price,
  discount_from_prices, sync_price_fields, get_or,
}
use ebdental_api.Products.Endpoints.{update_product, update_product_price}
use ebdental_api.Products.ListPrice.{list_price_after}
use ebdental_api.Products.Changes.{
  AllPriced, repriced, Change-AllPriced, update_product_price-list_price, update_product-needs,
}
use ebdental_api.Tests.Shop.{accounts}

abbrev admin_token : Option Claims
admin_token = some record { kind = user_token; sub = some 1 }

-- A column that holds what it is given.
abbrev exact : Money → Money
exact m = m

abbrev chair_prices : Prices
chair_prices = record {
  price = 90 * dollar;
  list_price = 100 * dollar;
  discount_type = percent;
  discount = 10 * dollar;
}

abbrev chair : ProductRow
chair = record {
  id = 0;
  product_name = 99 ∷ [];
  description = none;
  badge = none;
  product_code = none;
  uom = none;
  section = machinery;
  is_purchasable = true;
  brand_id = 1;
  category_id = none;
  prices = chair_prices;
  stock_qty = none;
  delisted_at = none;
  created_at = 1;
  free_items = [];
  updated_by_user_id = none;
}

abbrev lamp : ProductRow
lamp = record chair {
  id = 1;
  product_name = 108 ∷ [];
  prices = record chair_prices { price = 40 * dollar; list_price = 50 * dollar };
}

abbrev dearer_lamp : ProductRow
dearer_lamp = record lamp {
  prices = record chair_prices { price = 4000 * dollar; list_price = 5000 * dollar };
}

abbrev first_before : Text → Text → Bool
first_before [] b = true
first_before (x ∷ a) [] = false
first_before (x ∷ a) (y ∷ b) = ltb x y

abbrev everything : CatalogFilter
everything = record {
  brand_id = none;
  category_id = none;
  q = none;
  section = some machinery;
  include_unpurchasable = false;
  include_delisted = false;
}

list_products-masked_example :
    list_products text_eq first_before everything price_asc 0 10 false (chair ∷ lamp ∷ [])
    ≡ list_products text_eq first_before everything price_asc 0 10 false (chair ∷ dearer_lamp ∷ [])
list_products-masked_example =
    list_products-masked text_eq first_before everything price_asc 0 10 (chair ∷ lamp ∷ [])
      (chair ∷ dearer_lamp ∷ []) refl

length-list_products_example :
    let left : ℕ = count_products text_eq first_before everything (chair ∷ lamp ∷ []) - 1 in
    length (list_products text_eq first_before everything name 1 10 true (chair ∷ lamp ∷ []))
    ≡ (if ltb left 10 then left else 10)
length-list_products_example =
    length-list_products text_eq first_before everything name 1 10 true (chair ∷ lamp ∷ [])

counts_two : count_products text_eq first_before everything (chair ∷ lamp ∷ []) ≡ 2
unfolding count_products
counts_two = refl

-- 90 after ten percent off was 100; 80 of 100 is twenty percent off.
derived : derive_list_price (90 * dollar) (10 * dollar) percent ≡ 100 * dollar
unfolding derive_list_price
derived = refl

gap : discount_from_prices (100 * dollar) (80 * dollar) (some percent) ≡ 20 * dollar
unfolding discount_from_prices
gap = refl

abbrev goods : Shop
goods = record {
  products = record { next = 1; row = λ k. if k == 0 then some chair else none };
  next_free_item = 0;
  brands = λ k. k == 1;
  categories = λ k. false;
}

goods-AllPriced : AllPriced goods
goods-AllPriced k p h = ground arith

abbrev to_eighty : PriceUpdate
to_eighty = record {
  price = sent (80 * dollar);
  list_price = unset;
  discount_type = unset;
  discount = unset;
}

abbrev cheaper : ProductRow
cheaper = record chair {
  prices = record chair_prices { price = 80 * dollar; discount = 20 * dollar };
  updated_by_user_id = some 1;
}

abbrev cheaper_goods : Shop
cheaper_goods = record goods {
  products = record {
    next = 1;
    row = λ i. if i == 0 then some cheaper else (if i == 0 then some chair else none);
  };
}

repricing :
    update_product_price exact accounts admin_token 0 to_eighty goods ≡ ok (cheaper, cheaper_goods)
unfolding update_product_price require_permission sync_price_fields
repricing = refl

Change-AllPriced_example : AllPriced cheaper_goods
Change-AllPriced_example =
    Change-AllPriced exact {s = goods} {s' = cheaper_goods} (λ a b h. h) goods-AllPriced
      (repriced accounts admin_token 0 to_eighty cheaper repricing)

update_product_price-list_price_example :
    (p : ProductRow) × (price : Money) × (goods.products.row 0 ≡ some p)
    × (get_or to_eighty.price p.prices.price ≡ some price)
    × (cheaper.prices.price ≡ exact price)
    × (cheaper.prices.list_price ≡ exact (list_price_after p.prices to_eighty price))
update_product_price-list_price_example =
    update_product_price-list_price exact accounts admin_token 0 to_eighty goods cheaper_goods
      cheaper goods-AllPriced repricing

abbrev update_to_eighty : ProductUpdate
update_to_eighty = record {
  product_name = unset;
  description = unset;
  badge = unset;
  product_code = unset;
  uom = unset;
  section = unset;
  is_purchasable = unset;
  brand_id = unset;
  category_id = unset;
  prices = to_eighty;
  free_items = unset;
}

updating :
    update_product exact accounts admin_token 0 update_to_eighty goods ≡ ok (cheaper, cheaper_goods)
unfolding update_product get_verified_user sync_price_fields
updating = refl

update_product-needs_example :
    (user : User) × (get_verified_user accounts admin_token ≡ ok user)
    × (user.product_management ≡ true)
    × ((touches_price update_to_eighty.prices ≡ true) → user.price_listing ≡ true)
update_product-needs_example =
    update_product-needs exact accounts admin_token 0 update_to_eighty goods cheaper_goods cheaper
      updating
