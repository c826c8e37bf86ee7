-- ===== src/Orders/Race.antt =====
-- The payment poll asks the provider between its read and its write, and the write looks at nothing: what
-- other requests do in between.
use ebdental_api.Prelude.{ℕ, ◌≡◌, refl, true, false, Option, some, Text, ◌∙◌}
use ebdental_api.Http.{ok}
use ebdental_api.Accounts.{User, Principal}
use ebdental_api.Store.{Order, Store, Env, paid, order_alert, refund_alert, add_alert}
use ebdental_api.Checkout.{provider_says}
use ebdental_api.Checkout.Linked.{update_self}
use ebdental_api.Orders.{
  seen_paid, status_read, status_write, observe_payment, finish_status, check_payment_status,
  refund_order, save_order,
}
use ebdental_api.Orders.Payment.{
  IsWatched, is_settled, status_read-watched, refunded_order, refund_order_iff,
}

-- The row that a seen payment leaves.
abbrev settled_order : Env → Order → Order
settled_order env o = record o { payment_status = some paid; paid_at = some env.now }

abbrev settled_store : Env → ℕ → Order → Store → Store
settled_store env i o s = add_alert (order_alert i) (save_order i (settled_order env o) s)

-- An open pay-by-QR order that this caller may watch, and that the provider says is paid.
pub record IsSeenPaid (env : Env) (i : ℕ) (principal : Principal) (s : Store) (o : Order)
    : Type 0 where
  pub watched : IsWatched i principal s o
  pub open' : is_settled o.payment_status ≡ false
  pub says : provider_says env o.khqr_md5 (env.print_order_number o.order_number) ≡ true

read-seen :
    (env : Env) (i : ℕ) (principal : Principal) (s : Store) (o : Order)
    → IsSeenPaid env i principal s o
    → status_read env i principal s ≡ ok seen_paid
unfolding observe_payment
read-seen env i principal s o h =
    status_read-watched env i principal s o h.watched ∙ rw h.open' (rw h.says refl)

write-stored :
    (env : Env) (i : ℕ) (s : Store) (o : Order)
    → s.orders.row i ≡ some o
    → status_write env i s ≡ ok (some paid, settled_store env i o s)
unfolding status_write
write-stored env i s o at = rw at refl

poll-seen :
    (env : Env) (i : ℕ) (principal : Principal) (s : Store) (o : Order)
    → IsSeenPaid env i principal s o
    → check_payment_status env i principal s ≡ ok (some paid, settled_store env i o s)
unfolding check_payment_status finish_status
poll-seen env i principal s o h =
    rw (read-seen env i principal s o h) (write-stored env i s o h.watched.0)

-- A poll reads an open pay-by-QR order and asks the provider. While it waits, a second poll of the order
-- runs, is told that it is paid, and settles it, and an admin refunds it. Then the first poll is told that
-- it is paid too: its write makes the refunded order paid again, with a new payment date, while the
-- date of the refund still stands in the row. All four requests are accepted.
pub late_answer_undoes_refund :
    (asked second back late : Env) (i : ℕ) (watcher other : Principal) (reason : Option Text)
    (admin : User) (s : Store) (o : Order)
    → IsSeenPaid asked i watcher s o
    → IsSeenPaid second i other s o
    → admin.admin ≡ true
    → (s1 : Store) × (s2 : Store) × (s3 : Store) × (refund : Order) × (final : Order) × (status_read
          asked i watcher s
        ≡ ok seen_paid)
      × (check_payment_status second i other s ≡ ok (some paid, s1))
      × (refund_order back i reason admin s1 ≡ ok (refund, s2))
      × (status_write late i s2 ≡ ok (some paid, s3))
      × (s3.orders.row i ≡ some final)
      × (final.payment_status ≡ some paid)
      × (final.paid_at ≡ some late.now)
      × (final.refunded_at ≡ some back.now)
late_answer_undoes_refund asked second back late i watcher other reason admin s o h k is_admin =
    let s1 = settled_store second i o s in
    let sold = settled_order second o in
    let refund = refunded_order back reason admin sold in
    let s2 = add_alert (refund_alert i) (save_order i refund s1) in
    let final = settled_order late refund in
    (
      s1,
      s2,
      settled_store late i refund s2,
      refund,
      final,
      read-seen asked i watcher s o h,
      poll-seen second i other s o k,
      (refund_order_iff back i reason admin s1 (refund, s2)).1
          (sold, update_self i (some sold) s.orders.row, refl, is_admin, refl),
      write-stored late i s2 refund (update_self i (some refund) s1.orders.row),
      update_self i (some final) s2.orders.row,
      refl,
      refl,
      refl,
    )
