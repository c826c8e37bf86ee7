-- ===== src/Orders/Update/Rules.antt =====
-- The rules that update_order enforces, as they show on the saved row.
use mathlib.Core.Path.{subst}
use ebdental_api.Prelude.{
  ℕ, ◌≤◌, ◌≡◌, ◌≢◌, ◌⊎◌, refl, Bool, true, false, ◌&&◌, Option, none, some, [], ◌∷◌, ◌++◌, arith,
  Text, text_eq→≡, some-inj, Bool-cases, inl, inr, ap, sym, ◌∙◌,
}
use ebdental_api.Http.{ok}
use ebdental_api.Catalog.{Catalog}
use ebdental_api.Accounts.{User}
use ebdental_api.Store.{
  Order, Store, Env, Status, pending, confirmed, delivered, cancelled, other, same_status,
  PaymentStatus, paid, order_alert,
}
use ebdental_api.Orders.{is_paid, save_order}
use ebdental_api.Orders.Update.{
  OrderUpdate, Field, new_value, new_nullable, status_rank, not_forward, moves_wrongly,
  is_cancelled, sets_paid, apply_fields, stamp_paid, alert_if, update_order,
}
use ebdental_api.Orders.Update.Edit.{IsEdited, update_order-IsEdited, update_lines-IsRepriced}

-- Both values stand on the ladder pending, confirmed, delivered, the second not before the first.
abbrev pub IsForward : Option ℕ → Option ℕ → Type 0
IsForward (some a) (some b) = a ≤ b
IsForward _ _ = ⊥

not_forward-IsForward : (a b : Option ℕ) → not_forward a b ≡ false → IsForward a b
unfolding not_forward
not_forward-IsForward none b h = cc
not_forward-IsForward (some a) none h = cc
not_forward-IsForward (some a) (some b) h = ground arith

same_status→≡ : (a b : Status) → same_status a b ≡ true → a ≡ b
same_status→≡ pending pending h = refl
same_status→≡ confirmed confirmed h = refl
same_status→≡ delivered delivered h = refl
same_status→≡ cancelled cancelled h = refl
same_status→≡ (other a) (other b) h = ap other (text_eq→≡ a b h)
same_status→≡ _ _ h = cc

stamp_paid-status : (env : Env) (b : Bool) (o : Order) → (stamp_paid env b o).status ≡ o.status
unfolding stamp_paid
stamp_paid-status env true o = refl
stamp_paid-status env false o = refl

-- The status that an accepted edit saves.
saved-status :
    {cat : Catalog} {env : Env} {i : ℕ} {f : OrderUpdate} {user : User} {s : Store}
    {r : Order × Store}
    → (e : IsEdited cat env i f user s r) → r.0.status ≡ new_value f.status e.o.status
unfolding apply_fields
saved-status {cat} {env} {i} {f} {user} e =
    sym (ap (λ (p : Order × Store). p.0.status) e.result)
    ∙ stamp_paid-status env (sets_paid f) e.edited
    ∙ (update_lines-IsRepriced cat env.now f f.items (apply_fields f e.o) e.lines).status_kept

-- An edit of a paid order, by anyone, either leaves its workflow status as it was or moves it forward
-- along pending, confirmed, delivered; it never moves back and never leaves the ladder.
pub update_order-paid-IsForward :
    (cat : Catalog) (env : Env) (i : ℕ) (f : OrderUpdate) (user : User) (s : Store) (o : Order)
    {r : Order × Store}
    → s.orders.row i ≡ some o
    → o.payment_status ≡ some paid
    → update_order cat env i f user s ≡ ok r
    → (r.0.status ≡ o.status) ⊎ IsForward (status_rank o.status) (status_rank r.0.status)
update_order-paid-IsForward cat env i f user s o {r} at was_paid h =
    let e = update_order-IsEdited cat env i f user s h in
    let same : e.o ≡ o = some-inj (sym e.at ∙ at) in
    let new : r.0.status ≡ new_value f.status o.status =
      saved-status e ∙ ap (λ (q : Order). new_value f.status q.status) same in
    let checked : moves_wrongly o (new_value f.status o.status) ≡ false =
      subst (λ (q : Order). moves_wrongly q (new_value f.status q.status) ≡ false) same
        e.checks.forward in
    rw new (allowed (new_value f.status o.status) checked)
  where
    allowed :
        (n : Status)
        → moves_wrongly o n ≡ false
        → (n ≡ o.status) ⊎ IsForward (status_rank o.status) (status_rank n)
    allowed n c = elim (Bool-cases (same_status n o.status)) [
      | inl q ↦ inl (same_status→≡ n o.status q)
      | inr q ↦ inr (
          not_forward-IsForward (status_rank o.status) (status_rank n)
            (unfold moves_wrongly in ground arith))
    ]

is_paid-some : (p : Option PaymentStatus) → is_paid p ≡ true → p ≡ some paid
is_paid-some (some paid) h = refl
is_paid-some _ h = cc

sends_paid : (f : OrderUpdate) → sets_paid f ≡ true → f.payment_status ≡ some (some paid)
sends_paid f h = sent f.payment_status h
  where
    sent :
        (x : Field PaymentStatus)
        → (elim x [ none ↦ false | some v ↦ is_paid v ]) ≡ true
        → x ≡ some (some paid)
    sent none h = cc
    sent (some v) h = ap some (is_paid-some v h)

stamp_paid-payment :
    (env : Env) (b : Bool) (o : Order) → (stamp_paid env b o).payment_status ≡ o.payment_status
unfolding stamp_paid
stamp_paid-payment env true o = refl
stamp_paid-payment env false o = refl

stamp_paid-now :
    (env : Env) (b : Bool) (o : Order) → b ≡ true → (stamp_paid env b o).paid_at ≡ some env.now
unfolding stamp_paid
stamp_paid-now env true o h = refl
stamp_paid-now env false o h = cc

not_cancelled : (n : Status) → is_cancelled n ≡ false → n ≢ cancelled
unfolding is_cancelled
not_cancelled n h e = cc (subst (λ (x : Status). is_cancelled x ≡ false) e h)

alert_if-true :
    (i : ℕ) (o : Order) (s : Store) {b : Bool}
    → b ≡ true
    → (alert_if b i (save_order i o s)).alerts ≡ s.alerts ++ order_alert i ∷ []
alert_if-true i o s {b} h = ap (λ c. (alert_if c i (save_order i o s)).alerts) h

-- When staff record a payment and the edit is accepted, the saved row is paid as of now, its status is
-- not "cancelled", and exactly one more alert is left, the one for this order.
pub update_order-records_payment :
    (cat : Catalog) (env : Env) (i : ℕ) (f : OrderUpdate) (user : User) (s : Store)
    {r : Order × Store}
    → sets_paid f ≡ true
    → update_order cat env i f user s ≡ ok r
    → (r.0.payment_status ≡ some paid)
      × (r.0.paid_at ≡ some env.now)
      × (r.0.status ≢ cancelled)
      × (r.1.alerts ≡ s.alerts ++ order_alert i ∷ [])
unfolding apply_fields
update_order-records_payment cat env i f user s {r} pays h =
    let e = update_order-IsEdited cat env i f user s h in
    let kept =
      (update_lines-IsRepriced cat env.now f f.items (apply_fields f e.o) e.lines).payment_kept in
    let sets =
      subst (λ b. (b && is_cancelled (new_value f.status e.o.status)) ≡ false) pays
        e.checks.not_cancelled in
    (
      sym (ap (λ (p : Order × Store). p.0.payment_status) e.result)
          ∙ stamp_paid-payment env (sets_paid f) e.edited
          ∙ kept
          ∙ ap (λ x. new_nullable x e.o.payment_status) (sends_paid f pays),
      sym (ap (λ (p : Order × Store). p.0.paid_at) e.result)
          ∙ stamp_paid-now env (sets_paid f) e.edited pays,
      not_cancelled r.0.status (ap is_cancelled (saved-status e) ∙ sets),
      sym (ap (λ (p : Order × Store). p.1.alerts) e.result) ∙ alert_if-true i _ s pays,
    )

stamp_paid-qr :
    (env : Env) (b : Bool) (o : Order)
    → ((stamp_paid env b o).khqr_string ≡ o.khqr_string)
      × ((stamp_paid env b o).grand_total ≡ o.grand_total)
unfolding stamp_paid
stamp_paid-qr env true o = (refl, refl)
stamp_paid-qr env false o = (refl, refl)

-- A QR encodes the amount to pay. After any accepted edit of a row whose stored total is in whole
-- cents, a QR that is still on the row stands beside the total that it was there with.
pub update_order-qr_fits_total :
    (cat : Catalog) (env : Env) (i : ℕ) (f : OrderUpdate) (user : User) (s : Store) (o : Order)
    (q : Text) {r : Order × Store}
    → s.orders.row i ≡ some o
    → env.to_column o.grand_total ≡ o.grand_total
    → update_order cat env i f user s ≡ ok r
    → r.0.khqr_string ≡ some q
    → r.0.grand_total ≡ o.grand_total
unfolding apply_fields
update_order-qr_fits_total cat env i f user s o q {r} at cents h kept =
    let e = update_order-IsEdited cat env i f user s h in
    let same : e.o ≡ o = some-inj (sym e.at ∙ at) in
    let (qr, total) = stamp_paid-qr env (sets_paid f) e.edited in
    let there : e.edited.khqr_string ≡ some q =
      sym qr ∙ ap (λ (p : Order × Store). p.0.khqr_string) e.result ∙ kept in
    let fits =
      (update_lines-IsRepriced cat env.now f f.items (apply_fields f e.o) e.lines).qr_fits in
    let unchanged : e.edited.grand_total ≡ e.o.grand_total = elim fits [
      | inl gone ↦ cc (gone, there)
      | inr z ↦ z
    ] in
    sym (ap (λ (p : Order × Store). p.0.grand_total) e.result)
    ∙ ap env.to_column (total ∙ unchanged ∙ ap (λ (x : Order). x.grand_total) same)
    ∙ cents
