-- ===== src/Products/Endpoints.antt =====
-- create_product, update_product and update_product_price of app/routers/products.py. `to_column` is
-- the rounding of a Numeric(10, 2) column.
use ebdental_api.Prelude.{
  Text, ℕ, ◌+◌, Bool, true, false, not, ◌&&◌, Option, none, some, List, [], ◌∷◌, map, length,
  insert_row, set_row,
}
use ebdental_api.Http.{
  Result, ok, integrity_error, product_not_found, brand_unknown, category_unknown, code_in_use,
  product_management_required, price_listing_required, raise_if, or_raise, ◌>>=◌, ◌>>◌,
}
use ebdental_api.Catalog.{Money, BundleRow}
use ebdental_api.Bundles.Submit.{Item, build_bundle_rows}
use ebdental_api.Bundles.Reconcile.{replace_bundle_rows}
use ebdental_api.Accounts.{
  User, Accounts, Claims, Permission, get_verified_user, require_permission,
}
use ebdental_api.Products.{Prices, ProductRow}
use ebdental_api.Products.Write.{
  Sent, unset, null, sent, get, assign, assign_required, PriceUpdate, touches_price, ProductUpdate,
  ProductCreate, Shop, catalog_of, save_members, new_member, code_taken, resolve_list_price,
  sync_price_fields,
}

abbrev pub is_missing : (ℕ → Bool) → Option ℕ → Bool
is_missing known none = false
is_missing known (some k) = not (known k)

-- "brand_id" in data, and no such brand
abbrev pub brand_missing : (ℕ → Bool) → Sent ℕ → Bool
brand_missing known unset = false
brand_missing known null = true
brand_missing known (sent k) = not (known k)

-- A code that is not empty and that another product has.
abbrev pub code_refused : Shop → Option ℕ → Option Text → Bool
code_refused s own none = false
code_refused s own (some []) = false
code_refused s own (some (c ∷ code)) = code_taken s own (c ∷ code)

-- The unique constraint on product_code.
abbrev pub code_clashes : Shop → Option ℕ → Option Text → Bool
code_clashes s own none = false
code_clashes s own (some code) = code_taken s own code

module _ (to_column : Money → Money) where
  -- setattr of the synced price fields, and the rounding of the columns.
  unfoldable pub store_prices : Prices → PriceUpdate → Result Prices
  store_prices p u = do
    price ← assign_required u.price p.price
    list_price ← assign_required u.list_price p.list_price
    discount_type ← assign_required u.discount_type p.discount_type
    discount ← assign_required u.discount p.discount
    ok record {
      price = to_column price;
      list_price = to_column list_price;
      discount_type = discount_type;
      discount = to_column discount;
    }

  unfoldable pub new_prices : ProductCreate → Money → Prices
  new_prices payload list_price = record {
    price = to_column payload.price;
    list_price = to_column list_price;
    discount_type = payload.discount_type;
    discount = to_column payload.discount;
  }

  unfoldable pub create_product :
      ℕ → Accounts → Option Claims → ProductCreate → Shop → Result (ProductRow × Shop)
  unfolding new_prices
  create_product now db token payload s = do
    current_user ← require_permission Permission.product_management db token
    raise_if (not (s.brands payload.brand_id)) brand_unknown
    raise_if (is_missing s.categories payload.category_id) category_unknown
    raise_if (code_refused s none payload.product_code) code_in_use
    list_price ←
        resolve_list_price payload.list_price payload.price payload.discount payload.discount_type
    items ← build_bundle_rows (catalog_of s) none payload.free_items
    raise_if (code_clashes s none payload.product_code) integrity_error
    let product : ProductRow = record {
      id = s.products.next;
      product_name = payload.product_name;
      description = payload.description;
      badge = payload.badge;
      product_code = payload.product_code;
      uom = payload.uom;
      section = payload.section;
      is_purchasable = payload.is_purchasable;
      brand_id = payload.brand_id;
      category_id = payload.category_id;
      prices = new_prices payload list_price;
      stock_qty = none;
      delisted_at = none;
      created_at = now;
      free_items = save_members s.next_free_item (map new_member items);
      updated_by_user_id = some current_user.id;
    }
    ok (
      product,
      record s {
        products = insert_row product s.products;
        next_free_item = s.next_free_item + length items;
      },
    )

  -- `if "free_items" in data: replace_bundle_rows(...)`
  unfoldable pub update_free_items :
      Shop → ℕ → List BundleRow → Sent (List Item) → Result (List BundleRow)
  update_free_items s product_id current unset = ok current
  update_free_items s product_id current null = ok []
  update_free_items s product_id current (sent items) = do
    members ← replace_bundle_rows (catalog_of s) (some product_id) current items
    ok (save_members s.next_free_item members)

  -- The row after the setattr loop and the commit.
  unfoldable pub updated_row :
      User → ProductRow → List BundleRow → ProductUpdate → PriceUpdate → Result ProductRow
  unfolding store_prices
  updated_row current_user p free_items u synced = do
    prices ← store_prices p.prices synced
    product_name ← assign_required u.product_name p.product_name
    section ← assign_required u.section p.section
    is_purchasable ← assign_required u.is_purchasable p.is_purchasable
    brand_id ← assign_required u.brand_id p.brand_id
    ok record p {
      product_name = product_name;
      description = assign u.description p.description;
      badge = assign u.badge p.badge;
      product_code = assign u.product_code p.product_code;
      uom = assign u.uom p.uom;
      section = section;
      is_purchasable = is_purchasable;
      brand_id = brand_id;
      category_id = assign u.category_id p.category_id;
      prices = prices;
      free_items = free_items;
      updated_by_user_id = some current_user.id;
    }

  abbrev pub most_items : Sent (List Item) → ℕ
  most_items (sent items) = length items
  most_items _ = 0

  unfoldable pub update_product :
      Accounts → Option Claims → ℕ → ProductUpdate → Shop → Result (ProductRow × Shop)
  unfolding update_free_items updated_row
  update_product db token product_id u s = do
    current_user ← get_verified_user db token
    raise_if (not current_user.product_management) product_management_required
    raise_if (touches_price u.prices && not current_user.price_listing) price_listing_required
    p ← or_raise (s.products.row product_id) product_not_found
    raise_if (brand_missing s.brands u.brand_id) brand_unknown
    raise_if (is_missing s.categories (get u.category_id)) category_unknown
    raise_if (code_refused s (some product_id) (get u.product_code)) code_in_use
    free_items ← update_free_items s product_id p.free_items u.free_items
    synced ← sync_price_fields p.prices u.prices
    row ← updated_row current_user p free_items u synced
    raise_if (code_clashes s (some product_id) row.product_code) integrity_error
    ok (
      row,
      record s {
        products = set_row product_id row s.products;
        next_free_item = s.next_free_item + most_items u.free_items;
      },
    )

  unfoldable pub update_product_price :
      Accounts → Option Claims → ℕ → PriceUpdate → Shop → Result (ProductRow × Shop)
  unfolding store_prices
  update_product_price db token product_id u s = do
    current_user ← require_permission Permission.price_listing db token
    p ← or_raise (s.products.row product_id) product_not_found
    synced ← sync_price_fields p.prices u
    prices ← store_prices p.prices synced
    let row : ProductRow = record p { prices = prices; updated_by_user_id = some current_user.id }
    ok (row, record s { products = set_row product_id row s.products })
