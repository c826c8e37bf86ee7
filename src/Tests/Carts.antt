-- ===== src/Tests/Carts.antt =====
-- Pricing a cart, and freezing it.
use ebdental_api.Prelude.{◌+◌, ◌*◌, ◌≡◌, ◌==◌, refl, false, some, [], ◌∷◌, arith}
use ebdental_api.Prelude.Int.{pos, ◌+ℤ◌}
use ebdental_api.Http.{ok}
use ebdental_api.Catalog.{dollar, BundleRow}
use ebdental_api.Bundles.{resolve_set_options, choice_price_delta}
use ebdental_api.Bundles.Slots.{AllKnown, Configured, resolve_honours}
use ebdental_api.Lines.{Priced, no_lines, build_order_lines, persisted_totals}
use ebdental_api.Lines.Amounts.{IsTotalled, build_order_lines-IsTotalled}
use ebdental_api.Lines.Forgotten.{
  Deleted, forget_deleted, orphaned_of, persisted_totals-forget_deleted,
}
use ebdental_api.Pricing.{PricedOrder, price_order}
use ebdental_api.Pricing.Bounds.{IsFairlyPriced, price_order-IsFairlyPriced}
use ebdental_api.Tests.Shop.{
  ok_or, catalog, cart, kit, slot_group, large_choice, payload, admin_user,
}

abbrev cart_lines : Priced
unfolding build_order_lines
cart_lines = ok_or no_lines (build_order_lines catalog 1000 cart)

cart_lines-built : build_order_lines catalog 1000 cart ≡ ok cart_lines
unfolding build_order_lines resolve_set_options
cart_lines-built = refl

cart_lines-subtotal : cart_lines.subtotal ≡ 45 * dollar
unfolding build_order_lines resolve_set_options ◌+ℤ◌ choice_price_delta
cart_lines-subtotal = refl

build_order_lines-IsTotalled_example : IsTotalled cart_lines
build_order_lines-IsTotalled_example =
    build_order_lines-IsTotalled catalog 1000 cart cart_lines-built

-- The set of the cart is deleted.
abbrev gone : Deleted
gone = record { product = λ _. false; promotion = λ _. false; bundle = λ k. k == 1 }

persisted_totals-forget_deleted_example :
    persisted_totals (forget_deleted gone cart_lines.items)
    ≡ (cart_lines.subtotal, cart_lines.discountable_subtotal + orphaned_of gone cart_lines.items)
persisted_totals-forget_deleted_example =
    persisted_totals-forget_deleted catalog 1000 cart gone cart_lines-built

-- Its line has got into the base of the discount.
orphaned-cart : orphaned_of gone cart_lines.items ≡ 25 * dollar
unfolding build_order_lines resolve_set_options ◌+ℤ◌ choice_price_delta
orphaned-cart = refl

abbrev cart_priced : PricedOrder
unfolding price_order build_order_lines
cart_priced =
    ok_or (record { items = []; subtotal = 0; discount_amount = 0; grand_total = 0 })
      (price_order catalog 1000 payload (some admin_user))

cart_priced-done : price_order catalog 1000 payload (some admin_user) ≡ ok cart_priced
unfolding price_order build_order_lines resolve_set_options
cart_priced-done = refl

price_order-IsFairlyPriced_example : IsFairlyPriced payload (some admin_user) cart_priced
price_order-IsFairlyPriced_example =
    price_order-IsFairlyPriced catalog 1000 payload (some admin_user) (omega arith) cart_priced-done

kit-resolved :
    resolve_set_options catalog kit ((7, 2) ∷ []) ≡ ok (large_choice ∷ [], pos (5 * dollar))
unfolding resolve_set_options choice_price_delta ◌+ℤ◌
kit-resolved = refl

resolve_honours_example :
    AllKnown (slot_group ∷ []) ((7, 2) ∷ [])
    × Configured catalog ((7, 2) ∷ []) (slot_group ∷ []) (large_choice ∷ []) (pos (5 * dollar))
resolve_honours_example = resolve_honours catalog kit ((7, 2) ∷ []) kit-resolved

abbrev two_of_first : BundleRow
two_of_first = record { id = 1; product_id = 1; qty = 2 }
