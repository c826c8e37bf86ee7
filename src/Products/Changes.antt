-- ===== src/Products/Changes.antt =====
-- What the endpoints that write products keep, and what they need to be allowed.
use ebdental_api.Prelude.{
  ℕ, ◌*◌, ◌≤◌, Bool, true, false, not, ◌&&◌, Option, none, some, ◌≡◌, sym, ap, ◌∙◌, inl, inr,
  Bool-cases, ◌==◌, if◌then◌else◌, some-inj, not-eq-false, List,
}
use ebdental_api.Http.{
  ok, product_not_found, brand_unknown, category_unknown, code_in_use, product_management_required,
  price_listing_required, integrity_error, or_raise, >>=-eq-ok, guard-eq-ok, ok-injective,
  or_raise-eq-ok,
}
use ebdental_api.Catalog.{Money, cent, BundleRow}
use ebdental_api.Accounts.{
  Accounts, Claims, User, Permission, require_permission, get_verified_user,
}
use ebdental_api.Bundles.Submit.{build_bundle_rows}
use ebdental_api.Products.{ProductRow}
use ebdental_api.Products.Write.{
  Shop, ProductCreate, ProductUpdate, PriceUpdate, get_or, get, touches_price, catalog_of,
  resolve_list_price, sync_price_fields, assign_required,
}
use ebdental_api.Products.Endpoints.{
  store_prices, new_prices, create_product, update_free_items, updated_row, update_product,
  update_product_price, is_missing, code_refused, code_clashes, brand_missing,
}
use ebdental_api.Products.ListPrice.{
  Monotone, IsPriced, prices-Written, list_price-le, list_price_after, resolve_list_price-covers,
}

-- Every product's list price covers its price.
abbrev pub AllPriced : Shop → Type 0
AllPriced s = (k : ℕ) (p : ProductRow) → s.products.row k ≡ some p → IsPriced p.prices

needs : (a b : Bool) → a ≡ true → a && not b ≡ false → b ≡ true
needs true b e h = not-eq-false b h
needs false b e h = cc

module _ (to_column : Money → Money) where
  new_prices-IsPriced :
      (payload : ProductCreate) (l : Money)
      → Monotone to_column
      → payload.price ≤ l
      → IsPriced (new_prices to_column payload l)
  unfolding new_prices
  new_prices-IsPriced payload l mono h = mono _ _ h

  -- What `update_product_price` went through.
  update_product_price-eq-ok :
      (db : Accounts) (token : Option Claims) (k : ℕ) (u : PriceUpdate) (s s' : Shop)
      (row : ProductRow)
      → update_product_price to_column db token k u s ≡ ok (row, s')
      → (p : ProductRow) × (v : PriceUpdate) × (s.products.row k ≡ some p)
        × (sync_price_fields p.prices u ≡ ok v)
        × (store_prices to_column p.prices v ≡ ok row.prices)
        × (s'.products.row ≡ (λ i. if i == k then some row else s.products.row i))
  unfolding update_product_price
  update_product_price-eq-ok db token k u s s' row h =
      let (user, _, h1) = >>=-eq-ok (require_permission Permission.price_listing db token) _ h in
      let (p, found, h2) = >>=-eq-ok (or_raise (s.products.row k) product_not_found) _ h1 in
      let (v, synced, h3) = >>=-eq-ok (sync_price_fields p.prices u) _ h2 in
      let (q, stored, h4) = >>=-eq-ok (store_prices to_column p.prices v) _ h3 in
      let same = ok-injective h4 in
      let same_row = ap (λ (r : ProductRow × Shop). r.0) same in
      (
        p,
        v,
        or_raise-eq-ok _ _ found,
        synced,
        stored ∙ ap (λ (r : ProductRow). ok r.prices) same_row,
        sym (ap (λ (r : ProductRow × Shop). r.1.products.row) same)
            ∙ ap (λ (r : ProductRow). λ (i : ℕ). if i == k then some r else s.products.row i)
                same_row,
      )

  written-AllPriced :
      (k : ℕ) (s s' : Shop) (row : ProductRow)
      → AllPriced s
      → IsPriced row.prices
      → s'.products.row ≡ (λ i. if i == k then some row else s.products.row i)
      → AllPriced s'
  written-AllPriced k s s' row all one write i q found =
      let found' = sym (ap (λ f. f i) write) ∙ found in
      elim (Bool-cases (i == k)) [
        | inl e ↦ rw (← some-inj (rw e at found')) one
        | inr e ↦ all i q (rw e at found')
      ]

  pub update_product_price-AllPriced :
      (db : Accounts) (token : Option Claims) (k : ℕ) (u : PriceUpdate) (s s' : Shop)
      (row : ProductRow)
      → Monotone to_column
      → AllPriced s
      → update_product_price to_column db token k u s ≡ ok (row, s')
      → AllPriced s'
  update_product_price-AllPriced db token k u s s' row mono all h =
      let (p, v, found, synced, stored, write) =
        update_product_price-eq-ok db token k u s s' row h in
      let (price, _, written) =
        prices-Written to_column p.prices row.prices u v (all k p found) synced stored in
      written-AllPriced k s s' row all
        (list_price-le to_column p.prices row.prices u price mono written) write

  updated_row-prices :
      (user : User) (p row : ProductRow) (items : List BundleRow) (u : ProductUpdate)
      (v : PriceUpdate)
      → updated_row to_column user p items u v ≡ ok row
      → store_prices to_column p.prices v ≡ ok row.prices
  unfolding updated_row
  updated_row-prices user p row items u v h =
      let (q, stored, h1) = >>=-eq-ok (store_prices to_column p.prices v) _ h in
      let (a, _, h2) = >>=-eq-ok (assign_required u.product_name p.product_name) _ h1 in
      let (b, _, h3) = >>=-eq-ok (assign_required u.section p.section) _ h2 in
      let (c, _, h4) = >>=-eq-ok (assign_required u.is_purchasable p.is_purchasable) _ h3 in
      let (d, _, h5) = >>=-eq-ok (assign_required u.brand_id p.brand_id) _ h4 in
      stored ∙ ap (λ (r : ProductRow). ok r.prices) (ok-injective h5)

  -- What `update_product` went through.
  update_product-eq-ok :
      (db : Accounts) (token : Option Claims) (k : ℕ) (u : ProductUpdate) (s s' : Shop)
      (row : ProductRow)
      → update_product to_column db token k u s ≡ ok (row, s')
      → (user : User) × (p : ProductRow) × (v : PriceUpdate) × (get_verified_user db token
          ≡ ok user)
        × (user.product_management ≡ true)
        × (touches_price u.prices && not user.price_listing ≡ false)
        × (s.products.row k ≡ some p)
        × (sync_price_fields p.prices u.prices ≡ ok v)
        × (store_prices to_column p.prices v ≡ ok row.prices)
        × (s'.products.row ≡ (λ i. if i == k then some row else s.products.row i))
  unfolding update_product
  update_product-eq-ok db token k u s s' row h =
      let (user, verified, h1) = >>=-eq-ok (get_verified_user db token) _ h in
      let (manages, h2) =
        guard-eq-ok {b = not user.product_management} product_management_required h1 in
      let (listing, h3) =
        guard-eq-ok {b = touches_price u.prices && not user.price_listing} price_listing_required
          h2 in
      let (p, found, h4) = >>=-eq-ok (or_raise (s.products.row k) product_not_found) _ h3 in
      let (_, h5) = guard-eq-ok {b = brand_missing s.brands u.brand_id} brand_unknown h4 in
      let (_, h6) =
        guard-eq-ok {b = is_missing s.categories (get u.category_id)} category_unknown h5 in
      let (_, h7) = guard-eq-ok {b = code_refused s (some k) (get u.product_code)} code_in_use h6 in
      let (items, _, h8) =
        >>=-eq-ok (update_free_items to_column s k p.free_items u.free_items) _ h7 in
      let (v, synced, h9) = >>=-eq-ok (sync_price_fields p.prices u.prices) _ h8 in
      let (r, made, h10) = >>=-eq-ok (updated_row to_column user p items u v) _ h9 in
      let (_, h11) = guard-eq-ok {b = code_clashes s (some k) r.product_code} integrity_error h10 in
      let same = ok-injective h11 in
      let same_row = ap (λ (r : ProductRow × Shop). r.0) same in
      (
        user,
        p,
        v,
        verified,
        not-eq-false _ manages,
        listing,
        or_raise-eq-ok _ _ found,
        synced,
        updated_row-prices user p r items u v made ∙ ap (λ (r : ProductRow). ok r.prices) same_row,
        sym (ap (λ (r : ProductRow × Shop). r.1.products.row) same)
            ∙ ap (λ (r : ProductRow). λ (i : ℕ). if i == k then some r else s.products.row i)
                same_row,
      )

  update_product-AllPriced :
      (db : Accounts) (token : Option Claims) (k : ℕ) (u : ProductUpdate) (s s' : Shop)
      (row : ProductRow)
      → Monotone to_column
      → AllPriced s
      → update_product to_column db token k u s ≡ ok (row, s')
      → AllPriced s'
  update_product-AllPriced db token k u s s' row mono all h =
      let (_, p, v, _, _, _, found, synced, stored, write) =
        update_product-eq-ok db token k u s s' row h in
      let (price, _, written) =
        prices-Written to_column p.prices row.prices u.prices v (all k p found) synced stored in
      written-AllPriced k s s' row all
        (list_price-le to_column p.prices row.prices u.prices price mono written) write

  create_product-AllPriced :
      (now : ℕ) (db : Accounts) (token : Option Claims) (payload : ProductCreate) (c : ℕ)
      (s s' : Shop) (row : ProductRow)
      → payload.price ≡ c * cent
      → Monotone to_column
      → AllPriced s
      → create_product to_column now db token payload s ≡ ok (row, s')
      → AllPriced s'
  unfolding create_product
  create_product-AllPriced now db token payload c s s' row whole mono all h =
      let (user, _, h1) =
        >>=-eq-ok (require_permission Permission.product_management db token) _ h in
      let (_, h2) = guard-eq-ok {b = not (s.brands payload.brand_id)} brand_unknown h1 in
      let (_, h3) =
        guard-eq-ok {b = is_missing s.categories payload.category_id} category_unknown h2 in
      let (_, h4) = guard-eq-ok {b = code_refused s none payload.product_code} code_in_use h3 in
      let (l, listed, h5) =
        >>=-eq-ok
          (resolve_list_price payload.list_price payload.price payload.discount
            payload.discount_type)
          _ h4 in
      let (items, _, h6) =
        >>=-eq-ok (build_bundle_rows (catalog_of s) none payload.free_items) _ h5 in
      let (_, h7) = guard-eq-ok {b = code_clashes s none payload.product_code} integrity_error h6 in
      let same = ok-injective h7 in
      let covers =
        resolve_list_price-covers payload.list_price payload.price c payload.discount
          payload.discount_type whole listed in
      let priced = new_prices-IsPriced payload l mono covers in
      written-AllPriced s.products.next s s' row all
        (rw (← ap (λ (r : ProductRow × Shop). r.0) same) priced)
        (sym (ap (λ (r : ProductRow × Shop). r.1.products.row) same)
          ∙ ap
              (λ (r : ProductRow).
                λ (i : ℕ). if i == s.products.next then some r else s.products.row i)
              (ap (λ (r : ProductRow × Shop). r.0) same))

  -- One accepted request that writes a product. A new product's price is a whole number of cents.
  pub data Change (s s' : Shop) : Type 0 where
    created :
        (now : ℕ) (db : Accounts) (token : Option Claims) (payload : ProductCreate) (c : ℕ)
        (row : ProductRow)
        → payload.price ≡ c * cent
        → create_product to_column now db token payload s ≡ ok (row, s')
        → Change s s'
    updated :
        (db : Accounts) (token : Option Claims) (k : ℕ) (u : ProductUpdate) (row : ProductRow)
        → update_product to_column db token k u s ≡ ok (row, s')
        → Change s s'
    repriced :
        (db : Accounts) (token : Option Claims) (k : ℕ) (u : PriceUpdate) (row : ProductRow)
        → update_product_price to_column db token k u s ≡ ok (row, s')
        → Change s s'

  -- Invariant: where every product's list price covers its price, it does so after any accepted
  -- request that creates a product at a price in whole cents, updates one, or reprices one, as long as
  -- the rounding of the money columns does not turn the order of two figures round.
  pub Change-AllPriced :
      {s s' : Shop} → Monotone to_column → AllPriced s → Change s s' → AllPriced s'
  Change-AllPriced {s} {s'} mono all (created now db token payload c row whole h) =
      create_product-AllPriced now db token payload c s s' row whole mono all h
  Change-AllPriced {s} {s'} mono all (updated db token k u row h) =
      update_product-AllPriced db token k u s s' row mono all h
  Change-AllPriced {s} {s'} mono all (repriced db token k u row h) =
      update_product_price-AllPriced db token k u s s' row mono all h

  -- A repricing that is accepted, where every product's list price covers its price: the product's
  -- price is the one that was sent, or what it was, and its list price is the sent one, or what it was,
  -- or the price where that now exceeds it; both as the columns round them.
  pub update_product_price-list_price :
      (db : Accounts) (token : Option Claims) (k : ℕ) (u : PriceUpdate) (s s' : Shop)
      (row : ProductRow)
      → AllPriced s
      → update_product_price to_column db token k u s ≡ ok (row, s')
      → (p : ProductRow) × (price : Money) × (s.products.row k ≡ some p)
        × (get_or u.price p.prices.price ≡ some price)
        × (row.prices.price ≡ to_column price)
        × (row.prices.list_price ≡ to_column (list_price_after p.prices u price))
  update_product_price-list_price db token k u s s' row all h =
      let (p, v, found, synced, stored, write) =
        update_product_price-eq-ok db token k u s s' row h in
      let (price, given, written) =
        prices-Written to_column p.prices row.prices u v (all k p found) synced stored in
      (p, price, found, given, written.0, written.1)

  -- A product update is only accepted from an active confirmed member of staff who manages products,
  -- and one that sends a price, a list price, a discount or its type only from one who also has the
  -- price listing.
  pub update_product-needs :
      (db : Accounts) (token : Option Claims) (k : ℕ) (u : ProductUpdate) (s s' : Shop)
      (row : ProductRow)
      → update_product to_column db token k u s ≡ ok (row, s')
      → (user : User) × (get_verified_user db token ≡ ok user)
        × (user.product_management ≡ true)
        × ((touches_price u.prices ≡ true) → user.price_listing ≡ true)
  update_product-needs db token k u s s' row h =
      let (user, _, _, verified, manages, listing, _, _, _, _) =
        update_product-eq-ok db token k u s s' row h in
      (user, verified, manages, λ touches. needs _ _ touches listing)
