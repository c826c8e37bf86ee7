-- ===== src/Pricing/Bounds.antt =====
-- How far an order-level discount can go.
use mathlib.Core.Path.{subst}
use ebdental_api.Prelude.{
  ℕ, ◌+◌, ◌*◌, ◌≤◌, ◌≡◌, false, Option, arith, ltb, ap, ◌∙◌, ◌&&◌, ◌⊎◌, inl, inr, Bool-cases,
}
use ebdental_api.Http.{ok, discount_permission_required, >>=-eq-ok, guard-eq-ok, ok-injective}
use ebdental_api.Catalog.{dollar, DiscountType, percent, cash, Catalog}
use ebdental_api.Accounts.{User}
use ebdental_api.Lines.{build_order_lines, compute_discount}
use ebdental_api.Lines.Amounts.{
  amount_of, discountable_of, build_order_lines-IsTotalled, discountable-le-subtotal,
}
use ebdental_api.Pricing.{OrderCreate, PricedOrder, may_not_discount, price_order}

-- What the validators of OrderCreate and the check of update_order enforce.
abbrev pub IsWithin100 : DiscountType → ℕ → Type 0
IsWithin100 percent value = value ≤ 100 * dollar
IsWithin100 cash value = Unit

pub compute_discount-le-base :
    (t : DiscountType) (value base : ℕ) → IsWithin100 t value → compute_discount t value base ≤ base
unfolding compute_discount
compute_discount-le-base percent value base h =
    let product : base * value ≤ base * (100 * dollar) = grind arith in omega arith
compute_discount-le-base cash value base h = ground arith

-- What pricing an order promises.
pub record IsFairlyPriced (payload : OrderCreate) (user : Option User) (p : PricedOrder)
    : Type 0 where
  pub sums : p.subtotal ≡ amount_of p.items
  pub balances : p.grand_total + p.discount_amount ≡ p.subtotal
  pub spares_bundles : p.discount_amount ≤ discountable_of p.items
  pub gated :
      ((payload.discount_value ≡ 0) × (p.discount_amount ≡ 0)) ⊎ (may_not_discount user ≡ false)

compute_discount-zero : (t : DiscountType) (base : ℕ) → compute_discount t 0 base ≡ 0
unfolding compute_discount
compute_discount-zero percent base = omega arith
compute_discount-zero cash base = ground arith

-- A cart that is accepted, by any caller, is priced so that the discount and the grand total add up
-- to the subtotal, the discount takes at most what the product lines come to and nothing off the
-- promotions and sets, and either no discount was asked for and none is taken or the caller is staff with
-- product_management. The percentage is at most 100, as the schema enforces.
pub price_order-IsFairlyPriced :
    (cat : Catalog) (now : ℕ) (payload : OrderCreate) (user : Option User) {p : PricedOrder}
    → IsWithin100 payload.discount_type payload.discount_value
    → price_order cat now payload user ≡ ok p
    → IsFairlyPriced payload user p
unfolding price_order
price_order-IsFairlyPriced cat now payload user within e =
    let (permitted, e1) =
      guard-eq-ok {b = ltb 0 payload.discount_value && may_not_discount user}
        discount_permission_required e in
    let (q, built, e2) = >>=-eq-ok (build_order_lines cat now payload.items) _ e1 in
    let totals = build_order_lines-IsTotalled cat now payload.items built in
    let small = discountable-le-subtotal cat now payload.items built in
    let taken =
      compute_discount-le-base payload.discount_type payload.discount_value q.discountable_subtotal
        within in
    subst (IsFairlyPriced payload user) (ok-injective e2) (record {
      sums = totals.subtotal_sums;
      balances = omega arith;
      spares_bundles = omega (arith, totals.discountable_sums);
      gated = elim (Bool-cases (may_not_discount user)) [
        | inl barred ↦
            let z : payload.discount_value ≡ 0 = ground arith in
            inl (
              z,
              ap (λ v. compute_discount payload.discount_type v q.discountable_subtotal) z
                  ∙ compute_discount-zero payload.discount_type q.discountable_subtotal,
            )
        | inr may ↦ inr may
      ];
    })
