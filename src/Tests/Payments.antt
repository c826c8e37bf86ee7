-- ===== src/Tests/Payments.antt =====
-- Payments, checkouts and the sweep.
use ebdental_api.Prelude.{ℕ, ◌≡◌, ◌≢◌, ◌↔◌, refl, true, false, none, some, Text, [], ◌∷◌}
use ebdental_api.Http.{ok}
use ebdental_api.Accounts.{as_customer, Claims, user_token}
use ebdental_api.Accounts.Access.{IsStaff}
use ebdental_api.Store.{
  Order, PendingCheckout, Store, paid, next_checkout_reference, reference_taken,
}
use ebdental_api.Store.Codes.{next_checkout_reference-free}
use ebdental_api.Pricing.{OrderCreate, PricedOrder, price_order}
use ebdental_api.Lines.{build_order_lines, component_items}
use ebdental_api.Bundles.{resolve_set_options, set_contents, default_choice}
use ebdental_api.Checkout.{create_checkout, poll_lock, sweep_lock, prune, provider_says, paid_order}
use ebdental_api.Snapshot.{snapshot_lines, restore_lines}
use ebdental_api.Snapshot.Keys.{lines_fit, is_writable}
use ebdental_api.Checkout.Faithful.{IsSaleOf, create_checkout-IsSaleOf}
use ebdental_api.Checkout.Sweep.{IsRetained, prune_iff}
use ebdental_api.Orders.{
  check_payment_status, refund_order, generate_order_khqr, is_payable, seen_paid, status_read,
  status_write,
}
use ebdental_api.Orders.Payment.{
  IsRefund, refunded_order, refund_order_iff, check_payment_status-settled,
  check_payment_status-keeps_settled,
}
use ebdental_api.Orders.Gated.{delete_order_request}
use ebdental_api.Orders.Race.{IsSeenPaid, late_answer_undoes_refund}
use ebdental_api.Orders.Deleted.{delete_order_then_poll}
use ebdental_api.Orders.Reach.{empty_store}
use ebdental_api.Tests.Shop.{
  ok_or, catalog, env, accounts, env-PrintsApart, env-ReadsBack, admin_user, shopper, payload,
  parked_checkout, open_order, paid_at_counter, store_with, linked_order, linked_checkout,
  linked_store, linked_store-IsSound,
}

-- A cart with no discount is parked in the empty tables, and then its poll is confirmed.
abbrev shop_payload : OrderCreate
shop_payload = record payload { discount_value = 0 }

abbrev after_parking : PendingCheckout × Store
unfolding create_checkout price_order build_order_lines
after_parking =
    ok_or (parked_checkout, empty_store)
      (create_checkout catalog env shop_payload (as_customer shopper) empty_store)

after_parking-done :
    create_checkout catalog env shop_payload (as_customer shopper) empty_store ≡ ok after_parking
unfolding create_checkout price_order build_order_lines resolve_set_options
after_parking-done = refl

abbrev after_sweep : Store
after_sweep = sweep_lock env 1 after_parking.1

abbrev swept_order : Order
unfolding create_checkout price_order build_order_lines sweep_lock lines_fit restore_lines
    snapshot_lines component_items set_contents default_choice
swept_order = elim (after_sweep.orders.row 1) [ none ↦ open_order | some o ↦ o ]

next_checkout_reference-free_example :
    (c : Text) × (next_checkout_reference env (store_with open_order) ≡ some c)
    × (reference_taken (store_with open_order) c ≡ false)
next_checkout_reference-free_example =
    next_checkout_reference-free env (store_with open_order) env-PrintsApart

prune_iff_example : ((prune env (store_with open_order)).checkouts.row 1 ≡ some parked_checkout) ↔ (
    ((store_with open_order).checkouts.row 1 ≡ some parked_checkout)
    × IsRetained env parked_checkout)
prune_iff_example = prune_iff env (store_with open_order) 1 parked_checkout

abbrev after_refund : Order × Store
after_refund = (
  refunded_order env none admin_user paid_at_counter,
  store_with (refunded_order env none admin_user paid_at_counter),
)

refund_order_iff_example :
    (refund_order env 1 none admin_user (store_with paid_at_counter) ≡ ok after_refund)
    ↔ IsRefund env 1 none admin_user (store_with paid_at_counter) after_refund
refund_order_iff_example =
    refund_order_iff env 1 none admin_user (store_with paid_at_counter) after_refund

settled_poll :
    check_payment_status env 1 (as_customer shopper) (store_with paid_at_counter)
    ≡ ok (some paid, store_with paid_at_counter)
settled_poll =
    check_payment_status-settled env 1 (as_customer shopper) (store_with paid_at_counter)
      paid_at_counter (refl, refl, refl) refl

check_payment_status-keeps_settled_example :
    (store_with paid_at_counter).orders.row 1 ≡ some paid_at_counter
check_payment_status-keeps_settled_example =
    check_payment_status-keeps_settled env 1 1 (as_customer shopper) (store_with paid_at_counter)
      paid_at_counter refl refl settled_poll

open_order-IsSeenPaid : IsSeenPaid env 1 (as_customer shopper) (store_with open_order) open_order
unfolding provider_says
open_order-IsSeenPaid = record { watched = (refl, refl, refl); open' = refl; says = refl }

late_answer_undoes_refund_example :
    (s1 : Store) × (s2 : Store) × (s3 : Store) × (refund : Order) × (final : Order) × (status_read
        env 1
        (as_customer shopper)
        (store_with open_order)
      ≡ ok seen_paid)
    × (check_payment_status env 1 (as_customer shopper) (store_with open_order)
        ≡ ok (some paid, s1))
    × (refund_order env 1 none admin_user s1 ≡ ok (refund, s2))
    × (status_write env 1 s2 ≡ ok (some paid, s3))
    × (s3.orders.row 1 ≡ some final)
    × (final.payment_status ≡ some paid)
    × (final.paid_at ≡ some env.now)
    × (final.refunded_at ≡ some env.now)
late_answer_undoes_refund_example =
    late_answer_undoes_refund env env env env 1 (as_customer shopper) (as_customer shopper) none
      admin_user (store_with open_order) open_order open_order-IsSeenPaid open_order-IsSeenPaid refl

abbrev no_qr_yet : Order
no_qr_yet = record open_order { khqr_string = none; khqr_md5 = none; payment_status = none }

abbrev after_qr : Order × Store
unfolding generate_order_khqr
after_qr = ok_or (no_qr_yet, empty_store) (generate_order_khqr env 1 (store_with no_qr_yet))

after_qr-done : generate_order_khqr env 1 (store_with no_qr_yet) ≡ ok after_qr
unfolding generate_order_khqr
after_qr-done = refl

after_qr-payable : is_payable env after_qr.0.khqr_string ≡ true
unfolding generate_order_khqr
after_qr-payable = refl

abbrev pay_desk_token : Claims
pay_desk_token = record { kind = user_token; sub = some 1 }

admin-IsStaff : IsStaff accounts (some pay_desk_token) admin_user
admin-IsStaff = record {
  payload = pay_desk_token;
  user_id = 1;
  signed = refl;
  of_staff = refl;
  names = refl;
  found = refl;
  active = refl;
  verified = refl;
}

delete_order_then_poll_example :
    (s' : Store) × (s'' : Store) × (j : ℕ) × (p : Order) × (delete_order_request accounts
        (some pay_desk_token)
        1
        linked_store
      ≡ ok s')
    × (poll_lock env 1 s' ≡ ok (j, s''))
    × (j ≢ 1)
    × (s''.orders.row j ≡ some p)
    × (p.payment_status ≡ some paid)
    × (p.payment_reference ≡ some linked_checkout.reference)
unfolding is_writable
delete_order_then_poll_example =
    delete_order_then_poll env accounts (some pay_desk_token) 1 1 admin_user linked_store
      linked_checkout linked_order env-PrintsApart admin-IsStaff linked_store-IsSound refl refl refl
      refl refl

create_checkout-IsSaleOf_example :
    (p : PricedOrder) × (price_order catalog env.now shop_payload none ≡ ok p)
    × IsSaleOf env shop_payload shopper p after_parking.0
        (paid_order env after_parking.0 (some admin_user) 3 (b'X' ∷ []))
create_checkout-IsSaleOf_example =
    create_checkout-IsSaleOf env env env-ReadsBack (λ m. refl) catalog shop_payload shopper
      empty_store (some admin_user) 3 (b'X' ∷ []) after_parking-done
