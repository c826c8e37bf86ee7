-- ===== src/Orders/Payment.antt =====
-- The payment status of an order under the payment endpoints.
use mathlib.Core.Path.{subst}
use ebdental_api.Prelude.{
  ℕ, ◌≡◌, ◌≢◌, ◌↔◌, refl, sym, ◌∙◌, some-inj, Bool, true, false, not, ◌||◌, Option, none, some, [],
  arith, Text, value_or, not-eq-false, Bool-cases, inl, inr, ap,
}
use ebdental_api.Http.{
  ok, order_not_found, refund_admin_only, already_refunded, nothing_to_refund, already_paid,
  refunded_needs_new_order, khqr_unavailable, not_your_order, no_qr_payment, or_raise, >>=-eq-ok,
  guard-eq-ok, or_raise-eq-ok, ok-injective,
}
use ebdental_api.Accounts.{User, Principal}
use ebdental_api.Store.{
  Order, Store, Env, PaymentStatus, unpaid, paid, refunded, refund_alert, order_alert, add_alert,
}
use ebdental_api.Checkout.{provider_says, issue_qr}
use ebdental_api.Checkout.Linked.{update_self, update_ne}
use ebdental_api.Orders.{
  is_paid, is_refunded, refund_order, save_order, non_empty, check_payment_status, observe_payment,
  answers, status_read, status_write, finish_status, may_watch, is_khqr, generate_order_khqr,
  put_khqr, is_payable,
}

-- What a refund writes.
abbrev pub refunded_order : Env → Option Text → User → Order → Order
refunded_order env reason user o = record o {
  payment_status = some refunded;
  refunded_at = some env.now;
  refund_reason = non_empty (env.strip (value_or reason []));
  updated_by_user_id = some user.id;
}

is_paid-some : (p : Option PaymentStatus) → is_paid p ≡ true → p ≡ some paid
is_paid-some (some paid) h = refl
is_paid-some (some unpaid) h = cc
is_paid-some (some refunded) h = cc
is_paid-some none h = cc

is_refunded-paid : (p : Option PaymentStatus) → p ≡ some paid → is_refunded p ≡ false
is_refunded-paid p h = rw h refl

-- A refund that is allowed, and its result.
abbrev pub IsRefund : Env → ℕ → Option Text → User → Store → Order × Store → Type 0
IsRefund env i reason user s r =
    (o : Order) × (s.orders.row i ≡ some o)
    × (o.payment_status ≡ some paid)
    × (user.admin ≡ true)
    × ((
      refunded_order env reason user o,
      add_alert (refund_alert i) (save_order i (refunded_order env reason user o) s),
    )
        ≡ r)

-- A refund goes through exactly for an order that is paid now and a caller who is an admin. It then
-- marks the row refunded, with the moment, the reason and who did it, leaves every other column, the
-- date of the payment included, and every other row as it was, and leaves one refund alert.
pub refund_order_iff :
    (env : Env) (i : ℕ) (reason : Option Text) (user : User) (s : Store) (r : Order × Store)
    → (refund_order env i reason user s ≡ ok r) ↔ IsRefund env i reason user s r
unfolding refund_order
refund_order_iff env i reason user s r = (
  λ h.
      let (o, at, h1) = >>=-eq-ok (or_raise (s.orders.row i) order_not_found) _ h in
      let (admin, h2) = guard-eq-ok {b = not user.admin} refund_admin_only h1 in
      let (_, h3) = guard-eq-ok {b = is_refunded o.payment_status} already_refunded h2 in
      let (was_paid, h4) = guard-eq-ok {b = not (is_paid o.payment_status)} nothing_to_refund h3 in
      (
        o,
        or_raise-eq-ok _ _ at,
        is_paid-some o.payment_status (not-eq-false _ was_paid),
        not-eq-false _ admin,
        ok-injective h4,
      ),
  λ (o, at, was_paid, admin, e). rw (at, admin) (rw was_paid (ap ok e)),
)

abbrev pub is_settled : Option PaymentStatus → Bool
is_settled p = is_paid p || is_refunded p

-- A pay-by-QR order that the caller may watch.
abbrev pub IsWatched : ℕ → Principal → Store → Order → Type 0
IsWatched i principal s o =
    (s.orders.row i ≡ some o) × (may_watch principal o ≡ true) × (is_khqr o.payment_method ≡ true)

observe-settled :
    (env : Env) (o : Order) (b : Bool)
    → b ≡ true
    → observe_payment env o b ≡ answers o.payment_status
unfolding observe_payment
observe-settled env o b e = rw e refl

-- The read half passes on a caller who may watch the order.
pub status_read-watched :
    (env : Env) (i : ℕ) (principal : Principal) (s : Store) (o : Order)
    → IsWatched i principal s o
    → status_read env i principal s ≡ ok (observe_payment env o (is_settled o.payment_status))
unfolding status_read
status_read-watched env i principal s o (at, watch, qr) = rw at (rw watch (rw qr refl))

-- The payment poll of a settled order answers what is stored.
pub check_payment_status-settled :
    (env : Env) (i : ℕ) (principal : Principal) (s : Store) (o : Order)
    → IsWatched i principal s o
    → is_settled o.payment_status ≡ true
    → check_payment_status env i principal s ≡ ok (o.payment_status, s)
unfolding check_payment_status finish_status
check_payment_status-settled env i principal s o watched settled =
    rw (status_read-watched env i principal s o watched)
      (rw (observe-settled env o (is_settled o.payment_status) settled) refl)

finish-keeps :
    (env : Env) (i j : ℕ) (o p : Order) (s : Store) {r : Option PaymentStatus × Store}
    → s.orders.row i ≡ some o
    → s.orders.row j ≡ some p
    → is_settled p.payment_status ≡ true
    → finish_status env i (observe_payment env o (is_settled o.payment_status)) s ≡ ok r
    → r.1.orders.row j ≡ some p
unfolding finish_status observe_payment status_write
finish-keeps env i j o p s {r} at there settled h =
    elim (Bool-cases (is_settled o.payment_status)) [
      | inl e ↦
          let h1 : ok (o.payment_status, s) ≡ ok r = rw e at h in
          subst (λ (x : Option PaymentStatus × Store). x.1.orders.row j ≡ some p) (ok-injective h1)
            there
      | inr e ↦
          let says = provider_says env o.khqr_md5 (env.print_order_number o.order_number) in
          elim (Bool-cases says) [
            | inl yes' ↦
                let apart : j ≢ i = λ same.
                  let row : p ≡ o = some-inj (sym there ∙ ap s.orders.row same ∙ at) in
                  cc (ap (λ (x : Order). is_settled x.payment_status) row, settled, e) in
                let h1 : ok (
                  some paid,
                  add_alert (order_alert i) (
                      save_order i (record o { payment_status = some paid; paid_at = some env.now })
                        s),
                )
                    ≡ ok r =
                  sym (rw e (rw yes' (rw at refl))) ∙ h in
                subst (λ (x : Option PaymentStatus × Store). x.1.orders.row j ≡ some p)
                  (ok-injective h1) (update_ne i j _ s.orders.row apart ∙ there)
            | inr no' ↦
                let h1 : ok (o.payment_status, s) ≡ ok r = sym (rw e (rw no' refl)) ∙ h in
                subst (λ (x : Option PaymentStatus × Store). x.1.orders.row j ≡ some p)
                  (ok-injective h1) there
          ]
    ]

-- No payment poll that runs without another request in between, of whichever order and by whomever,
-- touches a paid or a refunded order, whatever the bank goes on reporting: its row stays as it is.
pub check_payment_status-keeps_settled :
    (env : Env) (i j : ℕ) (principal : Principal) (s : Store) (p : Order)
    {r : Option PaymentStatus × Store}
    → s.orders.row j ≡ some p
    → is_settled p.payment_status ≡ true
    → check_payment_status env i principal s ≡ ok r
    → r.1.orders.row j ≡ some p
unfolding check_payment_status status_read
check_payment_status-keeps_settled env i j principal s p there settled h =
    let (q, read, h1) = >>=-eq-ok (status_read env i principal s) _ h in
    let (o, at, h2) = >>=-eq-ok (or_raise (s.orders.row i) order_not_found) _ read in
    let (_, h3) = guard-eq-ok {b = not (may_watch principal o)} not_your_order h2 in
    let (_, h4) = guard-eq-ok {b = not (is_khqr o.payment_method)} no_qr_payment h3 in
    finish-keeps env i j o p s (or_raise-eq-ok _ order_not_found at) there settled
      (ap (λ x. finish_status env i x s) (ok-injective h4) ∙ h1)

generate_order_khqr-kept :
    (env : Env) (i : ℕ) (s : Store) (o : Order)
    → s.orders.row i ≡ some o
    → is_settled o.payment_status ≡ false
    → env.khqr_configured ≡ true
    → is_payable env o.khqr_string ≡ true
    → generate_order_khqr env i s ≡ ok (o, s)
unfolding generate_order_khqr
generate_order_khqr-kept env i s o at fresh configured payable =
    let not_paid : is_paid o.payment_status ≡ false = ground arith in
    let not_refunded : is_refunded o.payment_status ≡ false = ground arith in
    rw at (rw not_paid (rw not_refunded (rw configured (rw payable refl))))

-- An order that has just been given a QR.
abbrev IsOpenAt : ℕ → Order × Store → Type 0
IsOpenAt i (o, s) = (s.orders.row i ≡ some o) × (is_settled o.payment_status ≡ false)

put_khqr-IsOpenAt :
    (env : Env) (i : ℕ) (p : Order) (s : Store) {r : Order × Store}
    → put_khqr env i p s ≡ ok r
    → IsOpenAt i r
unfolding put_khqr
put_khqr-IsOpenAt env i p s h =
    let (qr, _, e) =
      >>=-eq-ok (issue_qr env p.grand_total (env.print_order_number p.order_number)) _ h in
    subst (IsOpenAt i) (ok-injective e) (update_self i _ s.orders.row, refl)

generate_order_khqr-IsOpenAt :
    (env : Env) (i : ℕ) (s : Store) {r : Order × Store}
    → generate_order_khqr env i s ≡ ok r
    → IsOpenAt i r
unfolding generate_order_khqr
generate_order_khqr-IsOpenAt env i s {r} h =
    let (p, at, h1) = >>=-eq-ok (or_raise (s.orders.row i) order_not_found) _ h in
    let (not_paid, h2) = guard-eq-ok {b = is_paid p.payment_status} already_paid h1 in
    let (not_refunded, h3) =
      guard-eq-ok {b = is_refunded p.payment_status} refunded_needs_new_order h2 in
    let (_, h4) = guard-eq-ok {b = not env.khqr_configured} khqr_unavailable h3 in
    elim (Bool-cases (is_payable env p.khqr_string)) [
      | inl e ↦
          let h5 : ok (p, s) ≡ ok r = rw e at h4 in
          subst (IsOpenAt i) (ok-injective h5) (or_raise-eq-ok _ _ at, ground arith)
      | inr e ↦ let h5 : put_khqr env i p s ≡ ok r = rw e at h4 in put_khqr-IsOpenAt env i p s h5
    ]

-- A QR that has been put on an order is handed out again, and not replaced, for as long as the order
-- is open and the QR is payable.
pub generate_order_khqr-again :
    (env later : Env) (i : ℕ) (s : Store) {o : Order} {s' : Store}
    → generate_order_khqr env i s ≡ ok (o, s')
    → is_payable later o.khqr_string ≡ true
    → later.khqr_configured ≡ true
    → generate_order_khqr later i s' ≡ ok (o, s')
generate_order_khqr-again env later i s {o} {s'} h payable configured =
    let (at, fresh) = generate_order_khqr-IsOpenAt env i s h in
    generate_order_khqr-kept later i s' o at fresh configured payable
