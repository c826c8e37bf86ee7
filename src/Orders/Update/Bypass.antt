-- ===== src/Orders/Update/Bypass.antt =====
-- Two ways round what the endpoints mean to protect: deleting a paid order without being an admin,
-- and a payment that is taken down again after its order was deleted.
use ebdental_api.Prelude.{
  ℕ, ◌*◌, ◌≡◌, refl, true, false, ◌&&◌, ◌||◌, ◌∙◌, Option, none, some, arith, ltb, text_eq_refl,
  delete_row,
}
use ebdental_api.Http.{ok, err, delete_admin_only}
use ebdental_api.Catalog.{dollar, DiscountType, percent, cash, Catalog}
use ebdental_api.Accounts.{User, Accounts, Claims}
use ebdental_api.Accounts.Access.{IsStaff}
use ebdental_api.Orders.Gated.{
  update_order_request, delete_order_request, update_order_request_lem, delete_order_request_lem,
}
use ebdental_api.Pricing.Bounds.{IsWithin100}
use ebdental_api.Store.{Order, Store, Env, Status, same_status, unpaid, paid}
use ebdental_api.Checkout.Linked.{update_self}
use ebdental_api.Orders.{save_order, delete_order, unlink_row}
use ebdental_api.Orders.Update.{
  OrderUpdate, has_empty_field, moves_wrongly, is_percent, check_update, apply_fields, update_lines,
  stamp_paid, update_order,
}
use ebdental_api.Orders.Update.Edit.{saved_order}

-- PUT {"payment_status": "unpaid"} and nothing else.
abbrev pub unpay : OrderUpdate
unpay = record {
  status = none;
  payment_status = some (some unpaid);
  clinic_name = none;
  contact_person = none;
  phone = none;
  address = none;
  latitude = none;
  longitude = none;
  map_link = none;
  payment_term = none;
  install_term = none;
  discount_type = none;
  discount_value = none;
  items = none;
}

same_status_refl : (n : Status) → same_status n n ≡ true
same_status_refl Status.pending = refl
same_status_refl Status.confirmed = refl
same_status_refl Status.delivered = refl
same_status_refl Status.cancelled = refl
same_status_refl (Status.other t) = text_eq_refl t

within-false :
    (t : DiscountType) (v : ℕ) → IsWithin100 t v → (is_percent t && ltb (100 * dollar) v) ≡ false
within-false percent v h = ground arith
within-false cash v h = refl

stays : (o : Order) → moves_wrongly o o.status ≡ false
unfolding moves_wrongly
stays o = rw (same_status_refl o.status) (ground arith)

check-unpay :
    (user : User) (o : Order)
    → IsWithin100 o.discount_type o.discount_value
    → check_update unpay user o ≡ ok tt
unfolding check_update has_empty_field
check-unpay user o within =
    rw (stays o) (rw (within-false o.discount_type o.discount_value within) refl)

-- The row after it.
abbrev pub unpaid_order : Env → User → Order → Order
unpaid_order env user o = saved_order env unpay user (apply_fields unpay o)

unpay_lem :
    (cat : Catalog) (env : Env) (i : ℕ) (user : User) (s : Store) (o : Order)
    → s.orders.row i ≡ some o
    → IsWithin100 o.discount_type o.discount_value
    → update_order cat env i unpay user s
      ≡ ok (unpaid_order env user o, save_order i (unpaid_order env user o) s)
unfolding update_order update_lines
unpay_lem cat env i user s o at within = rw at (rw (check-unpay user o within) refl)

delete_unsettled :
    (i : ℕ) (user : User) (s : Store) (o : Order)
    → s.orders.row i ≡ some o
    → o.payment_status ≡ some unpaid
    → (s' : Store) × (delete_order i user s ≡ ok s') × (s'.orders.row i ≡ none)
unfolding delete_order
delete_unsettled i user s o at e = (
  record s {
    orders = delete_row i s.orders;
    checkouts = record { next = s.checkouts.next; row = λ k. unlink_row i (s.checkouts.row k) };
  },
  rw at (rw e refl),
  update_self i none s.orders.row,
)

-- Deleting a paid order is refused to staff who are not admins, and yet any of them with price_listing,
-- active and with a confirmed address, can have it gone in two requests that are both accepted: mark it
-- unpaid, then delete it. The order's discount is one that the validators let through.
pub unpay_then_delete :
    (cat : Catalog) (env : Env) (db : Accounts) (token : Option Claims) (i : ℕ) (user : User)
    (s : Store) (o : Order)
    → IsStaff db token user
    → user.price_listing ≡ true
    → s.orders.row i ≡ some o
    → o.payment_status ≡ some paid
    → IsWithin100 o.discount_type o.discount_value
    → user.admin ≡ false
    → (delete_order_request db token i s ≡ err delete_admin_only)
      × (o' : Order) × (s' : Store) × (s'' : Store) × (update_order_request cat env db token i unpay
            s
          ≡ ok (o', s'))
      × (delete_order_request db token i s' ≡ ok s'')
      × (s''.orders.row i ≡ none)
unfolding apply_fields stamp_paid
unpay_then_delete cat env db token i user s o staff lists at was_paid within no_admin =
    let held : (user.price_listing || user.admin) ≡ true = ground arith in
    let deletes = delete_order_request_lem db token user staff held in
    let updates = update_order_request_lem db token user staff held in
    let o' = unpaid_order env user o in
    let s' = save_order i o' s in
    let (s'', deleted, gone) =
      delete_unsettled i user s' o' (update_self i (some o') s.orders.row) refl in
    (
      deletes i s ∙ (unfold delete_order in rw at (rw (was_paid, no_admin) refl)),
      o',
      s',
      s'',
      updates cat env i unpay s ∙ unpay_lem cat env i user s o at within,
      deletes i s' ∙ deleted,
      gone,
    )
