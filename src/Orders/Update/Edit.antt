-- ===== src/Orders/Update/Edit.antt =====
-- What a staff edit of an order may and may not do.
use mathlib.Core.Path.{subst}
use ebdental_api.Prelude.{
  ℕ, ◌*◌, ◌≡◌, ◌⊎◌, refl, Bool, true, false, not, ◌&&◌, Option, none, some, List, Text, ltb, ◌==◌,
  ==_iff, if◌then◌else◌, Bool-cases, inl, inr,
}
use ebdental_api.Http.{
  Result, ok, order_not_found, field_empty, status_moves_forward, order_cancelled,
  discount_permission_required, percent_above_100, or_raise, >>=-eq-ok, guard-eq-ok, or_raise-eq-ok,
  raise_if-eq-ok, ok-injective,
}
use ebdental_api.Catalog.{Money, dollar, Catalog}
use ebdental_api.Accounts.{User}
use ebdental_api.Lines.{OrderItemCreate, build_order_lines, persisted_totals}
use ebdental_api.Store.{Order, Store, Env, persist, stamp_updated_by}
use ebdental_api.Orders.{save_order}
use ebdental_api.Orders.Update.{
  OrderUpdate, Field, new_value, has_empty_field, moves_wrongly, is_cancelled, sets_paid,
  is_percent, check_update, apply_fields, reprice, replace_items, update_lines, stamp_paid,
  alert_if, update_order,
}

-- What repricing leaves alone.
pub record IsRepriced (o e : Order) : Type 0 where
  pub number_kept : e.order_number ≡ o.order_number
  pub reference_kept : e.payment_reference ≡ o.payment_reference
  pub status_kept : e.status ≡ o.status
  pub payment_kept : e.payment_status ≡ o.payment_status
  -- a QR that is kept is for the total that is kept
  pub qr_fits : (e.khqr_string ≡ none) ⊎ (e.grand_total ≡ o.grand_total)

kept_qr :
    (new old : Money) (qr : Option Text) → ((if new == old then qr else none) ≡ none) ⊎ (new ≡ old)
kept_qr new old qr = elim (Bool-cases (new == old)) [
  | inl e ↦ inr ((==_iff new old).0 e)
  | inr e ↦ inl (rw e refl)
]

reprice-IsRepriced : (t : Money × Money) (o : Order) → IsRepriced o (reprice t o)
unfolding reprice
reprice-IsRepriced t o = record {
  number_kept = refl;
  reference_kept = refl;
  status_kept = refl;
  payment_kept = refl;
  qr_fits = kept_qr _ o.grand_total o.khqr_string;
}

replace_items-IsRepriced :
    (cat : Catalog) (now : ℕ) (lines : List OrderItemCreate) (o : Order) {e : Order}
    → replace_items cat now lines o ≡ ok e
    → IsRepriced o e
unfolding replace_items
replace_items-IsRepriced cat now lines o h =
    let (p, _, q) = >>=-eq-ok (build_order_lines cat now lines) _ h in
    subst (IsRepriced o) (ok-injective q) (record {
      number_kept = refl;
      reference_kept = refl;
      status_kept = refl;
      payment_kept = refl;
      qr_fits = kept_qr _ o.grand_total o.khqr_string;
    })

keep_items-IsRepriced :
    (b : Bool) (o : Order) {e : Order}
    → (if b then ok (reprice (persisted_totals o.items) o) else ok o) ≡ ok e
    → IsRepriced o e
keep_items-IsRepriced true o h =
    subst (IsRepriced o) (ok-injective h) (reprice-IsRepriced (persisted_totals o.items) o)
keep_items-IsRepriced false o h = subst (IsRepriced o) (ok-injective h) (record {
  number_kept = refl;
  reference_kept = refl;
  status_kept = refl;
  payment_kept = refl;
  qr_fits = inr refl;
})

pub update_lines-IsRepriced :
    (cat : Catalog) (now : ℕ) (f : OrderUpdate) (x : Field (List OrderItemCreate)) (o : Order)
    {e : Order}
    → update_lines cat now f x o ≡ ok e
    → IsRepriced o e
unfolding update_lines
update_lines-IsRepriced cat now f (some (some lines)) o h =
    replace_items-IsRepriced cat now lines o h
update_lines-IsRepriced cat now f (some none) o h = keep_items-IsRepriced _ o h
update_lines-IsRepriced cat now f none o h = keep_items-IsRepriced _ o h

-- The checks that an accepted edit has passed.
pub record IsChecked (f : OrderUpdate) (user : User) (o : Order) : Type 0 where
  pub filled : has_empty_field f ≡ false
  pub forward : moves_wrongly o (new_value f.status o.status) ≡ false
  pub not_cancelled : (sets_paid f && is_cancelled (new_value f.status o.status)) ≡ false
  pub may_discount : (ltb 0 (new_value f.discount_value 0) && not user.product_management) ≡ false
  pub within :
      (is_percent (new_value f.discount_type o.discount_type)
        && ltb (100 * dollar) (new_value f.discount_value o.discount_value))
      ≡ false

check_update-IsChecked :
    (f : OrderUpdate) (user : User) (o : Order) → check_update f user o ≡ ok tt → IsChecked f user o
unfolding check_update
check_update-IsChecked f user o h =
    let (a, h1) = guard-eq-ok {b = has_empty_field f} field_empty h in
    let (b, h2) =
      guard-eq-ok {b = moves_wrongly o (new_value f.status o.status)} status_moves_forward h1 in
    let (c, h3) =
      guard-eq-ok {b = sets_paid f && is_cancelled (new_value f.status o.status)} order_cancelled
        h2 in
    let (d, h4) =
      guard-eq-ok {b = ltb 0 (new_value f.discount_value 0) && not user.product_management}
        discount_permission_required h3 in
    record {
      filled = a;
      forward = b;
      not_cancelled = c;
      may_discount = d;
      within = raise_if-eq-ok _ percent_above_100 h4;
    }

-- The saved row of an accepted edit.
abbrev pub saved_order : Env → OrderUpdate → User → Order → Order
saved_order env f user edited =
    persist env (stamp_updated_by (some user) (stamp_paid env (sets_paid f) edited))

pub record IsEdited (cat : Catalog) (env : Env) (i : ℕ) (f : OrderUpdate) (user : User) (s : Store)
    (r : Order × Store) : Type 0 where
  pub o : Order
  pub edited : Order
  pub at : s.orders.row i ≡ some o
  pub checks : IsChecked f user o
  pub lines : update_lines cat env.now f f.items (apply_fields f o) ≡ ok edited
  pub result :
      (
        saved_order env f user edited,
        alert_if (sets_paid f) i (save_order i (saved_order env f user edited) s),
      )
      ≡ r

unit_eta : {u : Unit {0}} {m : Result (Unit {0})} → m ≡ ok u → m ≡ ok tt
unit_eta h = h

pub update_order-IsEdited :
    (cat : Catalog) (env : Env) (i : ℕ) (f : OrderUpdate) (user : User) (s : Store)
    {r : Order × Store}
    → update_order cat env i f user s ≡ ok r
    → IsEdited cat env i f user s r
unfolding update_order
update_order-IsEdited cat env i f user s h =
    let (o, at, h1) = >>=-eq-ok (or_raise (s.orders.row i) order_not_found) _ h in
    let (u, checked, h2) = >>=-eq-ok (check_update f user o) _ h1 in
    let (e, built, h3) = >>=-eq-ok (update_lines cat env.now f f.items (apply_fields f o)) _ h2 in
    record {
      o = o;
      edited = e;
      at = or_raise-eq-ok _ _ at;
      checks = check_update-IsChecked f user o (unit_eta checked);
      lines = built;
      result = ok-injective h3;
    }
