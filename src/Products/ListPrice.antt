-- ===== src/Products/ListPrice.antt =====
-- The list price of a product: it is never below the price, and it does not move by itself.
use ebdental_api.Prelude.{
  ℕ, ◌-◌, ◌*◌, ◌/◌, ◌≤◌, ◌<◌, Bool, true, false, ◌||◌, Option, none, some, ◌≡◌, refl, sym, ap, ◌∙◌,
  inl, inr, arith, ltb, leb, if◌then◌else◌, Bool-cases, value_or, some-inj, ◌==◌,
}
use native.Mathlib.Nat.{le-div_iff_mul-le, mul-le-mul_left}
use ebdental_api.Http.{ok, type_error, or_raise, >>=-eq-ok, ok-injective, or_raise-eq-ok}
use ebdental_api.Catalog.{Money, cent, DiscountType, percent, cash}
use ebdental_api.Products.{Prices}
use ebdental_api.Products.Write.{
  half_even, hundred, derive_list_price, resolve_list_price, Sent, unset, null, sent, get, get_or,
  is_given, is_sent, assign_required, PriceUpdate, touches_price, sync_with, sync_price_fields,
}
use ebdental_api.Products.Endpoints.{store_prices}

-- Rounding does not turn the order of two figures round.
abbrev pub Monotone : (Money → Money) → Type 0
Monotone f = (a b : Money) → a ≤ b → f a ≤ f b

abbrev pub IsPriced : Prices → Type 0
IsPriced p = p.price ≤ p.list_price

-- A list price that is derived from a price in whole cents covers it.
half_even-ge : (c n d : ℕ) → 0 < d → c * d ≤ n → c ≤ half_even n d
unfolding half_even
half_even-ge c n d pos_d h =
    let below : c ≤ n / d = (le-div_iff_mul-le pos_d).1 h in ground (arith, below)

below_hundred : (discount : ℕ) → (hundred - discount) * cent ≤ hundred * cent
below_hundred discount = omega arith

derive_list_price-ge :
    (c discount : ℕ) (t : DiscountType) → c * cent ≤ derive_list_price (c * cent) discount t
unfolding derive_list_price
derive_list_price-ge c discount cash = omega arith
derive_list_price-ge c discount percent =
    elim (Bool-cases (discount == 0 || leb hundred discount)) [
      | inl e ↦ rw e (omega arith)
      | inr e ↦ rw e (
          let small : discount < hundred = ground arith in
          let whole : c * ((hundred - discount) * cent) ≤ c * cent * hundred =
            omega (arith, mul-le-mul_left c (below_hundred discount)) in
          let covers =
            half_even-ge c (c * cent * hundred) ((hundred - discount) * cent) (omega (arith, small))
              whole in
          omega (arith, covers))
    ]

resolve_list_price-ge :
    (sent_list : Option Money) (c discount : ℕ) (t : DiscountType) {list_price : Money}
    → resolve_list_price sent_list (c * cent) discount t ≡ ok list_price
    → c * cent ≤ list_price
unfolding resolve_list_price
resolve_list_price-ge none c discount t h =
    rw (← ok-injective h) (derive_list_price-ge c discount t)
resolve_list_price-ge (some l) c discount t h = ground arith

pub resolve_list_price-covers :
    (sent_list : Option Money) (price c discount : ℕ) (t : DiscountType) {list_price : Money}
    → price ≡ c * cent
    → resolve_list_price sent_list price discount t ≡ ok list_price
    → price ≤ list_price
resolve_list_price-covers sent_list price c discount t whole h =
    rw whole (resolve_list_price-ge sent_list c discount t (rw whole at h))

-- What passes on: the price fields as they were sent, and a list price that covers the price.
sync_with-eq-ok :
    (p : Prices) (u v : PriceUpdate) (price list_price : Money) (given : Bool)
    → sync_with p u price list_price given ≡ ok v
    → (v.price ≡ u.price)
      × (v.list_price ≡ sent (if ltb list_price price then price else list_price))
      × ((given ≡ true) → price ≤ list_price)
unfolding sync_with
sync_with-eq-ok p u v price list_price given h = elim (Bool-cases (ltb list_price price)) [
  | inr fits ↦ ground arith
  | inl over ↦ elim (Bool-cases given) [
    | inl is_given ↦ ground arith
    | inr not_given ↦ ground arith
  ]
]

assign_required-get_or {ℓ} :
    {A : Type ℓ} (s : Sent A) (old : A) {a : A}
    → assign_required s old ≡ ok a
    → get_or s old ≡ some a
assign_required-get_or unset old h = cc
assign_required-get_or null old h = cc
assign_required-get_or (sent x) old h = cc

-- What is stored of the synced fields.
store_prices-eq-ok :
    (to_column : Money → Money) (p q : Prices) (v : PriceUpdate) (price list_price : Money)
    → store_prices to_column p v ≡ ok q
    → get_or v.price p.price ≡ some price
    → get_or v.list_price p.list_price ≡ some list_price
    → (q.price ≡ to_column price) × (q.list_price ≡ to_column list_price)
unfolding store_prices
store_prices-eq-ok to_column p q v price list_price h e l =
    let (a, ea, h1) = >>=-eq-ok (assign_required v.price p.price) _ h in
    let (b, eb, h2) = >>=-eq-ok (assign_required v.list_price p.list_price) _ h1 in
    let (c, ec, h3) = >>=-eq-ok (assign_required v.discount_type p.discount_type) _ h2 in
    let (d, ed, h4) = >>=-eq-ok (assign_required v.discount p.discount) _ h3 in
    let same_a : a ≡ price = some-inj (sym (assign_required-get_or v.price p.price ea) ∙ e) in
    let same_b : b ≡ list_price =
      some-inj (sym (assign_required-get_or v.list_price p.list_price eb) ∙ l) in
    let saved = ok-injective h4 in
    (
      sym (ap (λ (r : Prices). r.price) saved) ∙ ap to_column same_a,
      sym (ap (λ (r : Prices). r.list_price) saved) ∙ ap to_column same_b,
    )

-- The list price after an update: the one that was sent, or the old one, or the new price where that
-- is higher than both.
abbrev pub list_price_after : Prices → PriceUpdate → Money → Money
list_price_after p u price =
    let base = value_or (get u.list_price) p.list_price in if ltb base price then price else base

or_false : (a b : Bool) → a || b ≡ false → (a ≡ false) × (b ≡ false)
or_false true b h = cc
or_false false b h = (refl, h)

unsent {ℓ} :
    {A : Type ℓ} (s : Sent A) (old : A)
    → is_sent s ≡ false
    → (get_or s old ≡ some old) × (get s ≡ none)
unsent unset old h = (refl, refl)
unsent null old h = cc
unsent (sent a) old h = cc

covered :
    (price list_price : Money)
    → price ≤ list_price
    → (if ltb list_price price then price else list_price) ≡ list_price
covered price list_price h = ground arith

module _ (to_column : Money → Money) (p q : Prices) (u : PriceUpdate) where
  abbrev pub Written : Money → Type 0
  Written price =
      (q.price ≡ to_column price) × (q.list_price ≡ to_column (list_price_after p u price))

  untouched-Written :
      touches_price u ≡ false
      → IsPriced p
      → store_prices to_column p u ≡ ok q
      → (get_or u.price p.price ≡ some p.price) × Written p.price
  untouched-Written h priced stored =
      let (rest, _) = or_false _ (is_sent u.discount_type) h in
      let (rest', _) = or_false _ (is_sent u.discount) rest in
      let (no_price, no_list) = or_false _ (is_sent u.list_price) rest' in
      let (left, none_given) = unsent u.list_price p.list_price no_list in
      let (kept, _) = unsent u.price p.price no_price in
      let written = store_prices-eq-ok to_column p q u p.price p.list_price stored kept left in
      let base : list_price_after p u p.price ≡ p.list_price = rw none_given (covered _ _ priced) in
      (kept, (written.0, written.1 ∙ ap to_column (sym base)))

  touched-Written :
      (v : PriceUpdate) (price : Money)
      → get_or u.price p.price ≡ some price
      → sync_with p u price (value_or (get u.list_price) p.list_price) (is_given (get u.list_price))
        ≡ ok v
      → store_prices to_column p v ≡ ok q
      → Written price
  touched-Written v price e synced stored =
      let base = value_or (get u.list_price) p.list_price in
      let (same, list, _) = sync_with-eq-ok p u v price base (is_given (get u.list_price)) synced in
      store_prices-eq-ok to_column p q v price (list_price_after p u price) stored
        (ap (λ s. get_or s p.price) same ∙ e) (ap (λ s. get_or s p.list_price) list)

  -- An update of the prices, whichever fields it carries: the price becomes the one that was sent, if
  -- one was, and the list price becomes the sent one, or stays unless the price now exceeds it, in
  -- which case it becomes the price.
  pub prices-Written :
      (v : PriceUpdate)
      → IsPriced p
      → sync_price_fields p u ≡ ok v
      → store_prices to_column p v ≡ ok q
      → (price : Money) × (get_or u.price p.price ≡ some price) × Written price
  unfolding sync_price_fields
  prices-Written v priced synced stored = elim (Bool-cases (touches_price u)) [
    | inr no_touch ↦
        let same : u ≡ v = ok-injective (rw no_touch at synced) in
        let r = untouched-Written no_touch priced (rw same stored) in (p.price, r.0, r.1)
    | inl touch ↦
        let synced' = rw touch at synced in
        let (price, e, rest) = >>=-eq-ok (or_raise (get_or u.price p.price) type_error) _ synced' in
        let sent_price = or_raise-eq-ok _ type_error e in
        (price, sent_price, touched-Written v price sent_price rest stored)
  ]

  pub list_price-le : (price : Money) → Monotone to_column → Written price → IsPriced q
  list_price-le price mono written =
      let raw : price ≤ list_price_after p u price = ground arith in
      rw (written.0, written.1) (mono _ _ raw)
