-- ===== src/Tests/Edits.antt =====
-- Staff edits of an order.
use ebdental_api.Prelude.{
  ◌≡◌, ◌≢◌, ◌⊎◌, ◌==◌, if◌then◌else◌, refl, none, some, [], ◌∷◌, ◌++◌, arith,
}
use ebdental_api.Http.{ok, err, delete_admin_only}
use ebdental_api.Store.{Order, Store, delivered, cancelled, paid, order_alert}
use ebdental_api.Accounts.{Accounts, Claims, user_token}
use ebdental_api.Accounts.Access.{IsStaff}
use ebdental_api.Orders.Gated.{update_order_request, delete_order_request}
use ebdental_api.Orders.Update.{OrderUpdate, update_order, status_rank}
use ebdental_api.Orders.Update.Rules.{
  IsForward, update_order-paid-IsForward, update_order-records_payment, update_order-qr_fits_total,
}
use ebdental_api.Orders.Update.Bypass.{unpay, unpay_then_delete}
use ebdental_api.Tests.Shop.{
  ok_or, catalog, env, accounts, clerk, open_order, paid_at_counter, store_with,
}

abbrev deliver : OrderUpdate
deliver = record unpay { status = some (some delivered); payment_status = none }

abbrev after_delivery : Order × Store
unfolding update_order
after_delivery =
    ok_or (open_order, store_with open_order)
      (update_order catalog env 1 deliver clerk (store_with paid_at_counter))

after_delivery-done :
    update_order catalog env 1 deliver clerk (store_with paid_at_counter) ≡ ok after_delivery
unfolding update_order
after_delivery-done = refl

update_order-paid-IsForward_example :
    (after_delivery.0.status ≡ paid_at_counter.status)
    ⊎ IsForward (status_rank paid_at_counter.status) (status_rank after_delivery.0.status)
update_order-paid-IsForward_example =
    update_order-paid-IsForward catalog env 1 deliver clerk (store_with paid_at_counter)
      paid_at_counter refl refl after_delivery-done

abbrev pay : OrderUpdate
pay = record unpay { payment_status = some (some paid) }

abbrev after_payment : Order × Store
unfolding update_order
after_payment =
    ok_or (open_order, store_with open_order)
      (update_order catalog env 1 pay clerk (store_with open_order))

after_payment-done : update_order catalog env 1 pay clerk (store_with open_order) ≡ ok after_payment
unfolding update_order
after_payment-done = refl

update_order-records_payment_example :
    (after_payment.0.payment_status ≡ some paid)
    × (after_payment.0.paid_at ≡ some env.now)
    × (after_payment.0.status ≢ cancelled)
    × (after_payment.1.alerts ≡ (store_with open_order).alerts ++ order_alert 1 ∷ [])
update_order-records_payment_example =
    update_order-records_payment catalog env 1 pay clerk (store_with open_order) refl
      after_payment-done

after_payment-qr : after_payment.0.khqr_string ≡ some (b'Q' ∷ [])
unfolding update_order
after_payment-qr = refl

update_order-qr_fits_total_example : after_payment.0.grand_total ≡ open_order.grand_total
update_order-qr_fits_total_example =
    update_order-qr_fits_total catalog env 1 pay clerk (store_with open_order) open_order
      (b'Q' ∷ []) refl refl after_payment-done after_payment-qr

-- The clerk, who is no admin, is signed in.
abbrev clerk_accounts : Accounts
clerk_accounts = record accounts { user = λ i. if i == 2 then some clerk else none }

abbrev clerk_token : Claims
clerk_token = record { kind = user_token; sub = some 2 }

clerk-IsStaff : IsStaff clerk_accounts (some clerk_token) clerk
clerk-IsStaff = record {
  payload = clerk_token;
  user_id = 2;
  signed = refl;
  of_staff = refl;
  names = refl;
  found = refl;
  active = refl;
  verified = refl;
}

unpay_then_delete_example :
    (delete_order_request clerk_accounts (some clerk_token) 1 (store_with paid_at_counter)
      ≡ err delete_admin_only)
    × (o' : Order) × (s' : Store) × (s'' : Store) × (update_order_request catalog env clerk_accounts
          (some clerk_token)
          1
          unpay
          (store_with paid_at_counter)
        ≡ ok (o', s'))
    × (delete_order_request clerk_accounts (some clerk_token) 1 s' ≡ ok s'')
    × (s''.orders.row 1 ≡ none)
unpay_then_delete_example =
    unpay_then_delete catalog env clerk_accounts (some clerk_token) 1 clerk
      (store_with paid_at_counter) paid_at_counter clerk-IsStaff refl refl refl (omega arith) refl
