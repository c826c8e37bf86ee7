-- ===== src/Products/Masking.antt =====
-- What a caller whose prices are masked can learn from the catalogue, and what the count promises of
-- the pages.
use ebdental_api.Prelude.{
  Text, ℕ, zero, suc, ◌-◌, Bool, false, Option, none, some, List, [], ◌∷◌, map, ◌≡◌, refl, sym, ap,
  ◌∙◌, arith, inl, inr, Bool-cases, length, length-map, take, drop, if◌then◌else◌, ltb,
}
use ebdental_api.Products.{
  ProductRow, CatalogFilter, ProductSort, name, name_desc, price_asc, price_desc, stock_asc,
  stock_desc, newest, oldest, without_prices, serialize_product, is_found, matches, catalog_query,
  is_price_sort, granted_sort, comes_before, insert_by, order_by, list_products, count_products,
}

take-map {ℓ κ} :
    {A : Type ℓ} {B : Type κ} (f : A → B) (n : ℕ) (xs : List A)
    → take n (map f xs) ≡ map f (take n xs)
take-map f zero xs = refl
take-map f (suc n) [] = refl
take-map f (suc n) (x ∷ xs) = ap (λ r. f x ∷ r) (take-map f n xs)

drop-map {ℓ κ} :
    {A : Type ℓ} {B : Type κ} (f : A → B) (n : ℕ) (xs : List A)
    → drop n (map f xs) ≡ map f (drop n xs)
drop-map f zero xs = refl
drop-map f (suc n) [] = refl
drop-map f (suc n) (x ∷ xs) = drop-map f n xs

length-page {ℓ} :
    {A : Type ℓ} (limit skip : ℕ) (xs : List A)
    → length (take limit (drop skip xs))
      ≡ (if ltb (length xs - skip) limit then length xs - skip else limit)
length-page zero zero [] = ground arith
length-page zero zero (x ∷ xs) = ground arith
length-page (suc limit) zero [] = ground arith
length-page (suc limit) zero (x ∷ xs) = ground (arith, length-page limit zero xs)
length-page zero (suc skip) [] = ground arith
length-page (suc limit) (suc skip) [] = ground arith
length-page zero (suc skip) (x ∷ xs) = ground (arith, length-page zero skip xs)
length-page (suc limit) (suc skip) (x ∷ xs) = ground (arith, length-page (suc limit) skip xs)

granted_sort-masked : (sort : ProductSort) → is_price_sort (granted_sort sort false) ≡ false
granted_sort-masked name = refl
granted_sort-masked name_desc = refl
granted_sort-masked price_asc = refl
granted_sort-masked price_desc = refl
granted_sort-masked stock_asc = refl
granted_sort-masked stock_desc = refl
granted_sort-masked newest = refl
granted_sort-masked oldest = refl

module _ (ilike : Text → Text → Bool) (name_before : Text → Text → Bool) where
  is_found-without_prices :
      (q : Option Text) (p : ProductRow)
      → is_found ilike name_before q (without_prices p) ≡ is_found ilike name_before q p
  is_found-without_prices none p = refl
  is_found-without_prices (some []) p = refl
  is_found-without_prices (some (c ∷ q)) p = refl

  matches-without_prices :
      (f : CatalogFilter) (p : ProductRow)
      → matches ilike name_before f (without_prices p) ≡ matches ilike name_before f p
  unfolding matches
  matches-without_prices f p = rw (is_found-without_prices f.q p) refl

  catalog_query-without_prices :
      (f : CatalogFilter) (rows : List ProductRow)
      → catalog_query ilike name_before f (map without_prices rows)
        ≡ map without_prices (catalog_query ilike name_before f rows)
  unfolding catalog_query
  catalog_query-without_prices f [] = refl
  catalog_query-without_prices f (p ∷ ps) = elim (Bool-cases (matches ilike name_before f p)) [
    | inl e ↦
        rw (matches-without_prices f p, e)
          (ap (λ r. without_prices p ∷ r) (catalog_query-without_prices f ps))
    | inr e ↦ rw (matches-without_prices f p, e) (catalog_query-without_prices f ps)
  ]

  comes_before-without_prices :
      (sort : ProductSort) (p r : ProductRow)
      → is_price_sort sort ≡ false
      → comes_before ilike name_before sort (without_prices p) (without_prices r)
        ≡ comes_before ilike name_before sort p r
  unfolding comes_before
  comes_before-without_prices name p r h = refl
  comes_before-without_prices name_desc p r h = refl
  comes_before-without_prices price_asc p r h = cc
  comes_before-without_prices price_desc p r h = cc
  comes_before-without_prices stock_asc p r h = refl
  comes_before-without_prices stock_desc p r h = refl
  comes_before-without_prices newest p r h = refl
  comes_before-without_prices oldest p r h = refl

  insert_by-without_prices :
      (sort : ProductSort) (p : ProductRow) (rs : List ProductRow)
      → is_price_sort sort ≡ false
      → insert_by ilike name_before sort (without_prices p) (map without_prices rs)
        ≡ map without_prices (insert_by ilike name_before sort p rs)
  unfolding insert_by
  insert_by-without_prices sort p [] h = refl
  insert_by-without_prices sort p (r ∷ rs) h =
      rw (comes_before-without_prices sort p r h)
        (elim (Bool-cases (comes_before ilike name_before sort p r)) [
          | inl e ↦ rw e refl
          | inr e ↦ rw e (ap (λ q. without_prices r ∷ q) (insert_by-without_prices sort p rs h))
        ])

  order_by-without_prices :
      (sort : ProductSort) (rs : List ProductRow)
      → is_price_sort sort ≡ false
      → order_by ilike name_before sort (map without_prices rs)
        ≡ map without_prices (order_by ilike name_before sort rs)
  unfolding order_by
  order_by-without_prices sort [] h = refl
  order_by-without_prices sort (r ∷ rs) h =
      rw (order_by-without_prices sort rs h) (insert_by-without_prices sort r _ h)

  length-insert_by :
      (sort : ProductSort) (p : ProductRow) (rs : List ProductRow)
      → length (insert_by ilike name_before sort p rs) ≡ suc (length rs)
  unfolding insert_by
  length-insert_by sort p [] = refl
  length-insert_by sort p (r ∷ rs) = ground (arith, length-insert_by sort p rs)

  length-order_by :
      (sort : ProductSort) (rs : List ProductRow)
      → length (order_by ilike name_before sort rs) ≡ length rs
  unfolding order_by
  length-order_by sort [] = refl
  length-order_by sort (r ∷ rs) = length-insert_by sort r _ ∙ ap suc (length-order_by sort rs)

  serialize-without_prices :
      (rs : List ProductRow)
      → map (λ p. serialize_product p false) (map without_prices rs)
        ≡ map (λ p. serialize_product p false) rs
  unfolding serialize_product
  serialize-without_prices [] = refl
  serialize-without_prices (r ∷ rs) =
      ap (λ q. serialize_product r false ∷ q) (serialize-without_prices rs)

  list_products-without_prices :
      (f : CatalogFilter) (sort : ProductSort) (skip limit : ℕ) (rows : List ProductRow)
      → list_products ilike name_before f sort skip limit false (map without_prices rows)
        ≡ list_products ilike name_before f sort skip limit false rows
  unfolding list_products
  list_products-without_prices f sort skip limit rows =
      let s = granted_sort sort false in
      rw
        (
          catalog_query-without_prices f rows,
          order_by-without_prices s (catalog_query ilike name_before f rows)
              (granted_sort-masked sort),
          drop-map without_prices skip
              (order_by ilike name_before s (catalog_query ilike name_before f rows)),
          take-map without_prices limit
              (drop skip (order_by ilike name_before s (catalog_query ilike name_before f rows))),
        )
        (serialize-without_prices _)

  -- A caller whose prices are masked gets the same page, whatever it filters by and sorts by, from any
  -- two catalogues whose products differ in their prices, list prices and discounts alone: neither the
  -- cards nor their order nor their number give any of these figures away.
  pub list_products-masked :
      (f : CatalogFilter) (sort : ProductSort) (skip limit : ℕ) (rows rows' : List ProductRow)
      → map without_prices rows ≡ map without_prices rows'
      → list_products ilike name_before f sort skip limit false rows
        ≡ list_products ilike name_before f sort skip limit false rows'
  list_products-masked f sort skip limit rows rows' same =
      sym (list_products-without_prices f sort skip limit rows)
      ∙ ap (list_products ilike name_before f sort skip limit false) same
      ∙ list_products-without_prices f sort skip limit rows'

  -- The count and the pages agree: a page holds `limit` products, or as many of the counted ones as
  -- are left behind the skipped ones where these are fewer, for every viewer and every order.
  pub length-list_products :
      (f : CatalogFilter) (sort : ProductSort) (skip limit : ℕ) (can_view_price : Bool)
      (rows : List ProductRow)
      → let left : ℕ = count_products ilike name_before f rows - skip in
        length (list_products ilike name_before f sort skip limit can_view_price rows)
        ≡ (if ltb left limit then left else limit)
  unfolding list_products count_products
  length-list_products f sort skip limit can_view_price rows =
      length-map _ _
      ∙ length-page limit skip _
      ∙ rw
          (length-order_by (granted_sort sort can_view_price)
            (catalog_query ilike name_before f rows))
          refl
