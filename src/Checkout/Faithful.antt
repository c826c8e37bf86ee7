-- ===== src/Checkout/Faithful.antt =====
-- The order that a checkout becomes is the cart that the customer was shown.
use mathlib.Core.Path.{subst}
use ebdental_api.Prelude.{ℕ, ◌≡◌, refl, not, Option, none, some, map, Text, ap}
use ebdental_api.Http.{
  ok, integrity_error, khqr_unavailable, or_raise, >>=-eq-ok, guard-eq-ok, ok-injective,
}
use ebdental_api.Catalog.{Money, Catalog}
use ebdental_api.Accounts.{User, Customer, as_customer}
use ebdental_api.Store.{
  Order, PendingCheckout, Store, Env, paid, persist_details, next_checkout_reference,
}
use ebdental_api.Snapshot.RoundTrip.{
  ReadsBack, forget_line_options, restore-snapshot, snap_decimal-str,
}
use ebdental_api.Pricing.{OrderCreate, PricedOrder, price_order}
use ebdental_api.Checkout.{checkout_row, create_checkout, paid_order, issue_qr}

-- The order, written at the moment `later`, carries the cart that was priced as `p`, for this customer,
-- paid under this reference.
pub record IsSaleOf (later : Env) (payload : OrderCreate) (customer : Customer) (p : PricedOrder)
    (c : PendingCheckout) (o : Order) : Type 0 where
  pub buyer : o.customer_id ≡ some customer.id
  pub lines : o.items ≡ map forget_line_options p.items
  pub delivery : o.details ≡ persist_details later payload.details
  pub subtotal : o.subtotal ≡ later.to_column p.subtotal
  pub discount : o.discount_amount ≡ later.to_column p.discount_amount
  pub total : o.grand_total ≡ later.to_column p.grand_total
  pub settled : o.payment_status ≡ some paid
  pub reference : o.payment_reference ≡ some c.reference

-- Rounding to a column what was rounded to one changes nothing more.
abbrev pub RoundsOnce : Env → Env → Type 0
RoundsOnce env later = (m : Money) → later.to_column (env.to_column m) ≡ later.to_column m

module _ (env later : Env) (law : ReadsBack env later) (rounds : RoundsOnce env later) where
  checkout_row-IsSaleOf :
      (payload : OrderCreate) (customer : Customer) (p : PricedOrder) (reference : Text)
      (qr : Text × Option Text) (u : Option User) (n : ℕ) (code : Text)
      → let c = checkout_row env payload customer p reference qr in
        IsSaleOf later payload customer p c (paid_order later c u n code)
  unfolding checkout_row paid_order
  checkout_row-IsSaleOf payload customer p reference qr none n code =
      let d = payload.details in
      record {
        buyer = refl;
        lines = restore-snapshot env later law p.items;
        delivery = λ i. persist_details later (record d {
          latitude = snap_decimal-str env later law d.latitude i;
          longitude = snap_decimal-str env later law d.longitude i;
        });
        subtotal = ap later.to_column (law.decimal p.subtotal);
        discount = ap later.to_column (law.decimal p.discount_amount);
        total = rounds p.grand_total;
        settled = refl;
        reference = refl;
      }
  checkout_row-IsSaleOf payload customer p reference qr (some user) n code =
      let d = payload.details in
      record {
        buyer = refl;
        lines = restore-snapshot env later law p.items;
        delivery = λ i. persist_details later (record d {
          latitude = snap_decimal-str env later law d.latitude i;
          longitude = snap_decimal-str env later law d.longitude i;
        });
        subtotal = ap later.to_column (law.decimal p.subtotal);
        discount = ap later.to_column (law.decimal p.discount_amount);
        total = rounds p.grand_total;
        settled = refl;
        reference = refl;
      }

  -- A checkout that create_checkout has parked becomes, whenever and by whoever, an order of exactly the
  -- cart that was priced then: the same lines less the configuration of sets, the same delivery
  -- details with the coordinates as their columns round them, and the same subtotal, discount and total
  -- as theirs do, paid, for the same customer and under the checkout's reference. Decimal is to read back what str printed, and rounding
  -- twice is to be rounding once.
  pub create_checkout-IsSaleOf :
      (cat : Catalog) (payload : OrderCreate) (customer : Customer) (s : Store) (u : Option User)
      (n : ℕ) (code : Text) {c : PendingCheckout} {s' : Store}
      → create_checkout cat env payload (as_customer customer) s ≡ ok (c, s')
      → (p : PricedOrder) × (price_order cat env.now payload none ≡ ok p)
        × IsSaleOf later payload customer p c (paid_order later c u n code)
  unfolding create_checkout
  create_checkout-IsSaleOf cat payload customer s u n code {c} {s'} h =
      let (_, h1) = guard-eq-ok {b = not env.khqr_configured} khqr_unavailable h in
      let (p, priced, h2) = >>=-eq-ok (price_order cat env.now payload none) _ h1 in
      let (reference, _, h3) =
        >>=-eq-ok (or_raise (next_checkout_reference env s) integrity_error) _ h2 in
      let (qr, _, h4) = >>=-eq-ok (issue_qr env p.grand_total reference) _ h3 in
      (
        p,
        priced,
        subst
            (λ (x : PendingCheckout).
              IsSaleOf later payload customer p x (paid_order later x u n code))
            (ap (λ (x : PendingCheckout × Store). x.0) (ok-injective h4))
            (checkout_row-IsSaleOf payload customer p reference qr u n code),
      )
