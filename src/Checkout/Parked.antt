-- ===== src/Checkout/Parked.antt =====
-- Parking a cart: what create_checkout leaves in the table.
use mathlib.Core.Path.{subst}
use ebdental_api.Prelude.{
  ℕ, zero, suc, ◌<◌, ◌==◌, ==_iff, Bool-cases, Option-cases, some-inj, rows_below, ◌≡◌, ◌≢◌, refl,
  Bool, true, false, not, ◌||◌, Option, none, some, List, arith, Text, text_eq, text_eq_refl, any,
  insert_row, inl, inr, ap, sym, ◌∙◌,
}
use ebdental_api.Http.{
  ok, integrity_error, khqr_unavailable, or_raise, >>=-eq-ok, guard-eq-ok, or_raise-eq-ok,
  ok-injective,
}
use ebdental_api.Catalog.{Catalog}
use ebdental_api.Accounts.{Customer, Principal, as_customer, as_user}
use ebdental_api.Store.{
  PendingCheckout, Store, Env, Alert, next_checkout_reference, reference_taken,
}
use ebdental_api.Store.Codes.{PrintsApart, next_checkout_reference-free}
use ebdental_api.Pricing.{OrderCreate, PricedOrder, price_order}
use ebdental_api.Checkout.{create_checkout, issue_qr, checkout_row}
use ebdental_api.Checkout.Linked.{IsSound}
use ebdental_api.Checkout.Preserved.{add_checkout-IsSound}

or_false : (a : Bool) {b : Bool} → (a || b) ≡ false → (a ≡ false) × (b ≡ false)
or_false true h = cc
or_false false h = (refl, h)

module _ {A : Type 0} (test : ℕ × A → Bool) (row : ℕ → Option A) where
  -- What no listed row has, no row has.
  any-rows_below :
      (n k : ℕ) (a : A)
      → any test (rows_below n row) ≡ false
      → k < n
      → row k ≡ some a
      → test (k, a) ≡ false
  any-rows_below zero k a h below at = absurd (omega arith)
  any-rows_below (suc n) k a h below at = elim (Option-cases (row n)) [
    | inl e ↦
        let h1 : any test (rows_below n row) ≡ false = rw e at h in
        elim (Bool-cases (k == n)) [
          | inl same ↦ let here : k ≡ n = (==_iff k n).0 same in cc (ap row here, e, at)
          | inr other ↦ any-rows_below n k a h1 (ground arith) at
        ]
    | inr (b, e) ↦
        let h1 : (test (n, b) || any test (rows_below n row)) ≡ false = rw e at h in
        let (first, rest) = or_false (test (n, b)) h1 in
        elim (Bool-cases (k == n)) [
          | inl same ↦
              let here : k ≡ n = (==_iff k n).0 same in
              let row' : a ≡ b = some-inj (sym at ∙ ap row here ∙ e) in
              ap test (λ i. (here i, row' i)) ∙ first
          | inr other ↦ any-rows_below n k a rest (ground arith) at
        ]
  ]

reference_free :
    (s : Store) (c : Text)
    → IsSound s
    → reference_taken s c ≡ false
    → (k : ℕ) (d : PendingCheckout) → s.checkouts.row k ≡ some d
    → d.reference ≢ c
reference_free s c h free k d at same =
    let below = h.checkouts_allocated k d at in
    let no =
      any-rows_below (λ (r : ℕ × PendingCheckout). text_eq r.1.reference c) s.checkouts.row
        s.checkouts.next k d free below at in
    cc (no, text_eq_refl c, ap (λ t. text_eq t c) same)

parked-IsSound :
    (env : Env) (payload : OrderCreate) (customer : Customer) (p : PricedOrder) (s : Store)
    (reference : Text) (qr : Text × Option Text) (as' : List Alert)
    → PrintsApart env
    → IsSound s
    → next_checkout_reference env s ≡ some reference
    → IsSound (record {
      orders = s.orders;
      checkouts = insert_row (checkout_row env payload customer p reference qr) s.checkouts;
      alerts = as';
    })
unfolding checkout_row
parked-IsSound env payload customer p s reference qr as' apart h made =
    let (code, found, free) = next_checkout_reference-free env s apart in
    let same : code ≡ reference = some-inj (sym found ∙ made) in
    add_checkout-IsSound h (checkout_row env payload customer p reference qr) as'
      (reference_free s reference h (subst (λ c. reference_taken s c ≡ false) same free))

pub create_checkout-IsSound :
    (cat : Catalog) (env : Env) (payload : OrderCreate) (principal : Principal) (s : Store)
    {r : PendingCheckout × Store}
    → PrintsApart env
    → IsSound s
    → create_checkout cat env payload principal s ≡ ok r
    → IsSound r.1
unfolding create_checkout
create_checkout-IsSound cat env payload (as_user user) s apart sound h = cc
create_checkout-IsSound cat env payload (as_customer customer) s apart sound h =
    let (_, h1) = guard-eq-ok {b = not env.khqr_configured} khqr_unavailable h in
    let (p, _, h2) = >>=-eq-ok (price_order cat env.now payload none) _ h1 in
    let (reference, made, h3) =
      >>=-eq-ok (or_raise (next_checkout_reference env s) integrity_error) _ h2 in
    let (qr, _, h4) = >>=-eq-ok (issue_qr env p.grand_total reference) _ h3 in
    subst (λ (x : PendingCheckout × Store). IsSound x.1) (ok-injective h4)
      (parked-IsSound env payload customer p s reference qr _ apart sound (or_raise-eq-ok _ _ made))
