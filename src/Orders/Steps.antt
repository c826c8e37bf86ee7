-- ===== src/Orders/Steps.antt =====
-- The endpoints over orders keep the stored data sound.
use mathlib.Core.Path.{subst}
use ebdental_api.Prelude.{
  ℕ, ◌≤◌, ◌≡◌, refl, Bool, true, false, not, Option, none, some, List, [], ◌∷◌, ◌++◌, arith, Text,
  Bool-cases, inl, inr, ◌∙◌,
}
use ebdental_api.Http.{
  ok, integrity_error, order_not_found, already_paid, refunded_needs_new_order, khqr_unavailable,
  or_raise, >>=-eq-ok, guard-eq-ok, or_raise-eq-ok, ok-injective,
}
use ebdental_api.Catalog.{Catalog}
use ebdental_api.Accounts.{User, Principal}
use ebdental_api.Store.{
  Order, Store, Env, Alert, PaymentMethod, PaymentStatus, order_alert, next_order_number,
  generate_quote_code,
}
use ebdental_api.Pricing.{OrderCreate, PricedOrder, price_order}
use ebdental_api.Checkout.{insert_order, issue_qr}
use ebdental_api.Checkout.Linked.{IsSound, next_order_number-le}
use ebdental_api.Checkout.Preserved.{add_order-IsSound, edit_order-IsSound}
use ebdental_api.Checkout.Materialize.{insert_order-eq-ok}
use ebdental_api.Orders.{
  create_order, quote_order, quote_method, user_of, check_payment_status, StatusRead, answers,
  seen_paid, status_read, status_write, finish_status, generate_order_khqr, put_khqr, refund_order,
  is_paid, is_refunded, is_payable,
}
use ebdental_api.Orders.Update.{
  OrderUpdate, update_order, sets_paid, stamp_paid, alert_if, apply_fields,
}
use ebdental_api.Orders.Payment.{refund_order_iff, refunded_order}
use ebdental_api.Orders.Update.Edit.{update_order-IsEdited, update_lines-IsRepriced, saved_order}

quote_order_keys :
    (env : Env) (payload : OrderCreate) (principal : Principal) (p : PricedOrder) (n : ℕ)
    (m : Option PaymentMethod) (code : Text)
    → let o = quote_order env payload principal p n m code in
      (o.payment_reference ≡ none) × (o.order_number ≡ n)
unfolding quote_order
quote_order_keys env payload principal p n m code = (refl, refl)

pub create_order-IsSound :
    (cat : Catalog) (env : Env) (payload : OrderCreate) (principal : Principal) (s : Store)
    {r : ℕ × Store}
    → IsSound s
    → create_order cat env payload principal s ≡ ok r
    → IsSound r.1
unfolding create_order
create_order-IsSound cat env payload principal s {r} sound h =
    let (p, _, h1) = >>=-eq-ok (price_order cat env.now payload (user_of principal)) _ h in
    let (m, _, h2) = >>=-eq-ok (quote_method principal payload.payment_method) _ h1 in
    let (code, _, h3) = >>=-eq-ok (or_raise (generate_quote_code env s) integrity_error) _ h2 in
    let o = quote_order env payload principal p (next_order_number s) m code in
    let (placed, inserted, h4) = >>=-eq-ok (insert_order env cat o s) _ h3 in
    let (unpaid, number) = quote_order_keys env payload principal p (next_order_number s) m code in
    let row = insert_order-eq-ok env cat o s inserted in
    let small : o.order_number ≤ s.orders.next = omega (arith, next_order_number-le s sound) in
    subst (λ (x : ℕ × Store). IsSound x.1) (ok-injective h4)
      (subst
        (λ (x : ℕ × Store). IsSound (record {
          orders = x.1.orders;
          checkouts = x.1.checkouts;
          alerts = x.1.alerts ++ order_alert x.0 ∷ [];
        }))
        row (add_order-IsSound sound o _ unpaid small))

pub status_write-IsSound :
    (env : Env) (i : ℕ) (s : Store) {r : Option PaymentStatus × Store}
    → IsSound s
    → status_write env i s ≡ ok r
    → IsSound r.1
unfolding status_write
status_write-IsSound env i s {r} sound h =
    let (o, at, h1) = >>=-eq-ok (or_raise (s.orders.row i) integrity_error) _ h in
    subst (λ (x : Option PaymentStatus × Store). IsSound x.1) (ok-injective h1)
      (edit_order-IsSound sound i o _ _ (or_raise-eq-ok _ integrity_error at) refl refl)

finish_status-IsSound :
    (env : Env) (i : ℕ) (q : StatusRead) (s : Store) {r : Option PaymentStatus × Store}
    → IsSound s
    → finish_status env i q s ≡ ok r
    → IsSound r.1
unfolding finish_status
finish_status-IsSound env i (answers p) s sound h =
    subst (λ (x : Option PaymentStatus × Store). IsSound x.1) (ok-injective h) sound
finish_status-IsSound env i seen_paid s sound h = status_write-IsSound env i s sound h

pub check_payment_status-IsSound :
    (env : Env) (i : ℕ) (principal : Principal) (s : Store) {r : Option PaymentStatus × Store}
    → IsSound s
    → check_payment_status env i principal s ≡ ok r
    → IsSound r.1
unfolding check_payment_status
check_payment_status-IsSound env i principal s sound h =
    let (q, _, h1) = >>=-eq-ok (status_read env i principal s) _ h in
    finish_status-IsSound env i q s sound h1

put_khqr-IsSound :
    (env : Env) (i : ℕ) (o : Order) (s : Store) {r : Order × Store}
    → IsSound s
    → s.orders.row i ≡ some o
    → put_khqr env i o s ≡ ok r
    → IsSound r.1
unfolding put_khqr
put_khqr-IsSound env i o s sound at h =
    let (qr, _, e) =
      >>=-eq-ok (issue_qr env o.grand_total (env.print_order_number o.order_number)) _ h in
    subst (λ (x : Order × Store). IsSound x.1) (ok-injective e)
      (edit_order-IsSound sound i o _ s.alerts at refl refl)

pub generate_order_khqr-IsSound :
    (env : Env) (i : ℕ) (s : Store) {r : Order × Store}
    → IsSound s
    → generate_order_khqr env i s ≡ ok r
    → IsSound r.1
unfolding generate_order_khqr
generate_order_khqr-IsSound env i s {r} sound h =
    let (o, at, h1) = >>=-eq-ok (or_raise (s.orders.row i) order_not_found) _ h in
    let (_, h2) = guard-eq-ok {b = is_paid o.payment_status} already_paid h1 in
    let (_, h3) = guard-eq-ok {b = is_refunded o.payment_status} refunded_needs_new_order h2 in
    let (_, h4) = guard-eq-ok {b = not env.khqr_configured} khqr_unavailable h3 in
    elim (Bool-cases (is_payable env o.khqr_string)) [
      | inl e ↦
          let h5 : ok (o, s) ≡ ok r = rw e at h4 in
          subst (λ (x : Order × Store). IsSound x.1) (ok-injective h5) sound
      | inr e ↦
          let h5 : put_khqr env i o s ≡ ok r = rw e at h4 in
          put_khqr-IsSound env i o s sound (or_raise-eq-ok _ order_not_found at) h5
    ]

-- The order's number and payment reference are not among what an edit writes.
saved_order_keys :
    (env : Env) (f : OrderUpdate) (user : User) (e : Order)
    → ((saved_order env f user e).payment_reference ≡ e.payment_reference)
      × ((saved_order env f user e).order_number ≡ e.order_number)
saved_order_keys env f user e = stamped (sets_paid f)
  where
    stamped :
        (b : Bool)
        → ((stamp_paid env b e).payment_reference ≡ e.payment_reference)
          × ((stamp_paid env b e).order_number ≡ e.order_number)
    stamped true = unfold stamp_paid in (refl, refl)
    stamped false = unfold stamp_paid in (refl, refl)

alerted-IsSound :
    (b : Bool) (i : ℕ) (s : Store)
    → ((as' : List Alert) → IsSound (record s { alerts = as' }))
    → IsSound (alert_if b i s)
alerted-IsSound true i s h = h _
alerted-IsSound false i s h = h s.alerts

pub update_order-IsSound :
    (cat : Catalog) (env : Env) (i : ℕ) (f : OrderUpdate) (user : User) (s : Store)
    {r : Order × Store}
    → IsSound s
    → update_order cat env i f user s ≡ ok r
    → IsSound r.1
unfolding apply_fields
update_order-IsSound cat env i f user s sound h =
    let w = update_order-IsEdited cat env i f user s h in
    let kept = update_lines-IsRepriced cat env.now f f.items (apply_fields f w.o) w.lines in
    let (ref, number) = saved_order_keys env f user w.edited in
    subst (λ (x : Order × Store). IsSound x.1) w.result
      (alerted-IsSound (sets_paid f) i _ λ as'.
        edit_order-IsSound sound i w.o _ as' w.at (ref ∙ kept.reference_kept)
          (number ∙ kept.number_kept))

pub refund_order-IsSound :
    (env : Env) (i : ℕ) (reason : Option Text) (user : User) (s : Store) {r : Order × Store}
    → IsSound s
    → refund_order env i reason user s ≡ ok r
    → IsSound r.1
refund_order-IsSound env i reason user s {r} sound h =
    let (o, at, _, _, e) = (refund_order_iff env i reason user s r).0 h in
    subst (λ (x : Order × Store). IsSound x.1) e
      (edit_order-IsSound sound i o (refunded_order env reason user o) _ at refl refl)
