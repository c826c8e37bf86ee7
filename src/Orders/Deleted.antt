-- ===== src/Orders/Deleted.antt =====
-- Deleting an order, and what becomes of the checkout that it came from.
use mathlib.Core.Path.{subst}
use ebdental_api.Prelude.{
  ℕ, ◌≡◌, ◌≢◌, refl, true, false, not, ◌&&◌, ◌||◌, Option, none, some, arith, delete_row, ◌==◌,
  ==_refl, some-inj, Bool-cases, inl, inr, ap, sym, ◌∙◌,
}
use ebdental_api.Http.{
  ok, order_not_found, delete_admin_only, or_raise, >>=-eq-ok, guard-eq-ok, ok-injective,
}
use ebdental_api.Accounts.{User, Accounts, Claims}
use ebdental_api.Accounts.Access.{IsStaff}
use ebdental_api.Snapshot.Keys.{is_writable}
use ebdental_api.Orders.Gated.{delete_order_request, delete_order_request_lem}
use ebdental_api.Store.{Order, PendingCheckout, Store, Env, paid, next_order_number}
use ebdental_api.Store.Codes.{PrintsApart}
use ebdental_api.Checkout.{poll_lock, paid_order}
use ebdental_api.Checkout.Linked.{IsSound, row-update, update_self}
use ebdental_api.Checkout.Materialize.{linked_store, paid_order_keys, paid_order_paid}
use ebdental_api.Checkout.Once.{poll_lock-open}
use ebdental_api.Orders.{is_paid, is_refunded, delete_order, unlink_row}

-- The store without the order `i`.
abbrev without_order : ℕ → Store → Store
without_order i s = record s {
  orders = delete_row i s.orders;
  checkouts = record { next = s.checkouts.next; row = λ k. unlink_row i (s.checkouts.row k) };
}

-- The row that a row after ON DELETE SET NULL was.
unlink_row-was :
    (i : ℕ) (v : Option PendingCheckout) {c' : PendingCheckout}
    → unlink_row i v ≡ some c'
    → (c : PendingCheckout) × (v ≡ some c) × (c'.reference ≡ c.reference)
unfolding unlink_row
unlink_row-was i none h = cc
unlink_row-was i (some c) h =
    (c, refl, sym (ap (λ (x : PendingCheckout). x.reference) (some-inj h)))

-- A link to another order stays.
unlink_row-other :
    (i j : ℕ) (v : Option PendingCheckout) (c : PendingCheckout)
    → v ≡ some c
    → c.order_id ≡ some j
    → j ≢ i
    → unlink_row i v ≡ some (record c { order_id = c.order_id })
unfolding unlink_row
unlink_row-other i j v c at e h =
    let apart : (j == i) ≡ false = ground arith in rw at (rw e (rw apart refl))

unlink_row-here :
    (i : ℕ) (v : Option PendingCheckout) (c : PendingCheckout)
    → v ≡ some c
    → c.order_id ≡ some i
    → unlink_row i v ≡ some (record c { order_id = none })
unfolding unlink_row
unlink_row-here i v c at e = rw at (rw e (rw (==_refl i) refl))

without_order-IsSound : (i : ℕ) {s : Store} → IsSound s → IsSound (without_order i s)
without_order-IsSound i {s} h = record {
  orders_allocated = λ j a e. elim (row-update i j none s.orders.row e) [
    | inl (_, gone) ↦ cc
    | inr (_, old) ↦ h.orders_allocated j a old
  ];
  checkouts_allocated = λ k c e.
      let (d, at, _) = unlink_row-was i (s.checkouts.row k) e in h.checkouts_allocated k d at;
  started = h.started;
  numbered = λ j a e. elim (row-update i j none s.orders.row e) [
    | inl (_, gone) ↦ cc
    | inr (_, old) ↦ h.numbered j a old
  ];
  references_apart = λ j k a b e f q.
      let (c, at, x) = unlink_row-was i (s.checkouts.row j) e in
      let (d, at', y) = unlink_row-was i (s.checkouts.row k) f in
      h.references_apart j k c d at at' (sym x ∙ q ∙ y);
  linked = λ j a r e p. elim (row-update i j none s.orders.row e) [
    | inl (_, gone) ↦ cc
    | inr (other, old) ↦
        let (k, c, g) = h.linked j a r old p in
        (
          k,
          _,
          record {
            at = unlink_row-other i j (s.checkouts.row k) c g.at g.became other;
            holds = g.holds;
            became = g.became;
          },
        )
  ];
}

pub delete_order-IsSound :
    (i : ℕ) (user : User) (s : Store) {s' : Store}
    → IsSound s
    → delete_order i user s ≡ ok s'
    → IsSound s'
unfolding delete_order
delete_order-IsSound i user s sound h =
    let (o, _, h1) = >>=-eq-ok (or_raise (s.orders.row i) order_not_found) _ h in
    let (_, h2) =
      guard-eq-ok {b = (is_paid o.payment_status || is_refunded o.payment_status) && not user.admin}
        delete_admin_only h1 in
    subst IsSound (ok-injective h2) (without_order-IsSound i sound)

delete_as_admin :
    (i : ℕ) (user : User) (s : Store) (o : Order)
    → s.orders.row i ≡ some o
    → user.admin ≡ true
    → delete_order i user s ≡ ok (without_order i s)
unfolding delete_order
delete_as_admin i user s o at admin = rw at (
    rw admin (elim (Bool-cases (is_paid o.payment_status || is_refunded o.payment_status)) [
      | inl e ↦ rw e refl
      | inr e ↦ rw e refl
    ]))

-- An admin, active and with a confirmed address, deletes the order that a checkout became. The checkout
-- then counts as open again, and the next poll that the provider confirms, where the catalogue still has
-- what the snapshot's lines name and their values are within the ranges of their columns, writes a second paid order, under a new id, for the payment whose order was
-- deleted. The stored data is sound and printing tells numbers apart.
pub delete_order_then_poll :
    (env : Env) (db : Accounts) (token : Option Claims) (k i : ℕ) (user : User) (s : Store)
    (c : PendingCheckout) (o : Order)
    → PrintsApart env
    → IsStaff db token user
    → IsSound s
    → s.orders.row i ≡ some o
    → s.checkouts.row k ≡ some c
    → c.order_id ≡ some i
    → is_writable env c.snapshot.lines ≡ true
    → user.admin ≡ true
    → (s' : Store) × (s'' : Store) × (j : ℕ) × (p : Order) × (delete_order_request db token i s
        ≡ ok s')
      × (poll_lock env k s' ≡ ok (j, s''))
      × (j ≢ i)
      × (s''.orders.row j ≡ some p)
      × (p.payment_status ≡ some paid)
      × (p.payment_reference ≡ some c.reference)
delete_order_then_poll env db token k i user s c o apart staff h at parked became listed admin =
    let s' = without_order i s in
    let c' : PendingCheckout = record c { order_id = none } in
    let (code, done) =
      poll_lock-open env apart s' (without_order-IsSound i h) k c'
        (unlink_row-here i (s.checkouts.row k) c parked became) refl listed in
    let p = paid_order env c' none (next_order_number s') code in
    let (_, _, ref) = paid_order_keys env c' none (next_order_number s') code in
    (
      s',
      linked_store k c' p _ s',
      s.orders.next,
      p,
      delete_order_request_lem db token user staff (ground (arith, admin)) i s
          ∙ delete_as_admin i user s o at admin,
      done,
      (λ y. absurd (omega (arith, h.orders_allocated i o at))),
      update_self s.orders.next (some p) s'.orders.row,
      paid_order_paid env c' none (next_order_number s') code,
      ref,
    )
