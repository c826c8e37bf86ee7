-- ===== src/Checkout/Materialize.antt =====
-- Writing the order of a locked checkout: what it writes, and when the database refuses it.
use mathlib.Core.Path.{subst}
use ebdental_api.Prelude.{
  ℕ, ◌≡◌, ◌||◌, refl, true, false, not, Option, none, some, List, [], ◌∷◌, ◌++◌, arith, Text,
  insert_row, set_row, sym, ap, ◌∙◌,
}
use ebdental_api.Http.{ok, err, integrity_error, raise_if, ◌>>◌, ok-injective, guard-eq-ok}
use ebdental_api.Catalog.{Catalog}
use ebdental_api.Snapshot.Keys.{lines_fit, is_writable, lines_fit-restore}
use ebdental_api.Accounts.{User}
use ebdental_api.Store.{
  Order, PendingCheckout, Store, Env, Alert, order_alert, paid, next_order_number, quote_code_taken,
}
use ebdental_api.Store.Codes.{PrintsApart, generate_quote_code-free}
use ebdental_api.Checkout.{insert_order, number_taken, paid_order, materialize_checkout, settle}
use ebdental_api.Checkout.Linked.{IsSound, next_order_number-free, next_order_number-le}
use ebdental_api.Checkout.Preserved.{link-IsSound}

-- The INSERT of an order whose number and code are free.
insert_order_lem :
    (env : Env) (cat : Catalog) (o : Order) (s : Store)
    → number_taken s o.order_number ≡ false
    → quote_code_taken s o.quote_code ≡ false
    → insert_order env cat o s ≡ (do
      raise_if (not (lines_fit env cat o.items)) integrity_error
      ok (s.orders.next, record s { orders = insert_row o s.orders }))
unfolding insert_order
insert_order_lem env cat o s a b = rw (a, b) refl

pub insert_order-eq-ok :
    (env : Env) (cat : Catalog) (o : Order) (s : Store) {r : ℕ × Store}
    → insert_order env cat o s ≡ ok r
    → (s.orders.next, record s { orders = insert_row o s.orders }) ≡ r
unfolding insert_order
insert_order-eq-ok env cat o s h =
    let (_, h1) =
      guard-eq-ok {b = number_taken s o.order_number || quote_code_taken s o.quote_code}
        integrity_error h in
    let (_, h2) = guard-eq-ok {b = not (lines_fit env cat o.items)} integrity_error h1 in
    ok-injective h2

-- The store once the checkout `c` at `k` has become the order `o`.
abbrev pub linked_store : ℕ → PendingCheckout → Order → List Alert → Store → Store
linked_store k c o as' s = record {
  orders = insert_row o s.orders;
  checkouts = set_row k (record c { order_id = some s.orders.next }) s.checkouts;
  alerts = as';
}

-- The columns of the paid order that the constraints and the links are about.
pub paid_order_keys :
    (env : Env) (c : PendingCheckout) (u : Option User) (n : ℕ) (code : Text)
    → let o = paid_order env c u n code in
      (o.order_number ≡ n) × (o.quote_code ≡ code) × (o.payment_reference ≡ some c.reference)
unfolding paid_order
paid_order_keys env c none n code = (refl, refl, refl)
paid_order_keys env c (some u) n code = (refl, refl, refl)

-- What the database asks of its lines is what it would ask of the snapshot's.
paid_order-fits :
    (env : Env) (c : PendingCheckout) (u : Option User) (n : ℕ) (code : Text)
    → lines_fit env env.catalog (paid_order env c u n code).items ≡ is_writable env c.snapshot.lines
unfolding paid_order
paid_order-fits env c none n code = lines_fit-restore env c.snapshot.lines
paid_order-fits env c (some u) n code = lines_fit-restore env c.snapshot.lines

pub paid_order_paid :
    (env : Env) (c : PendingCheckout) (u : Option User) (n : ℕ) (code : Text)
    → (paid_order env c u n code).payment_status ≡ some paid
unfolding paid_order
paid_order_paid env c none n code = refl
paid_order_paid env c (some u) n code = refl

module _ (env : Env) (apart : PrintsApart env) (s : Store) (h : IsSound s) where
  -- The row goes in, unless the database refuses one of its lines.
  insert_paid_order :
      (c : PendingCheckout) (u : Option User) (code : Text)
      → quote_code_taken s code ≡ false
      → let o = paid_order env c u (next_order_number s) code in
        insert_order env env.catalog o s ≡ (do
          raise_if (not (is_writable env c.snapshot.lines)) integrity_error
          ok (s.orders.next, record s { orders = insert_row o s.orders }))
  insert_paid_order c u code free =
      let o = paid_order env c u (next_order_number s) code in
      let (number, quote, _) = paid_order_keys env c u (next_order_number s) code in
      insert_order_lem env env.catalog o s
        (subst (λ n. number_taken s n ≡ false) (sym number) (next_order_number-free s h))
        (subst (λ q. quote_code_taken s q ≡ false) (sym quote) free)
      ∙ ap
          (λ b. do
            raise_if (not b) integrity_error
            ok (s.orders.next, record s { orders = insert_row o s.orders }))
          (paid_order-fits env c u (next_order_number s) code)

  pub materialize_checkout_lem :
      (k : ℕ) (c : PendingCheckout) (u : Option User)
      → is_writable env c.snapshot.lines ≡ true
      → (code : Text) × (materialize_checkout env k c u s
          ≡ ok (
            s.orders.next,
            linked_store k c (paid_order env c u (next_order_number s) code) s.alerts s,
          ))
  unfolding materialize_checkout
  materialize_checkout_lem k c u listed =
      let (code, made, free) = generate_quote_code-free env s apart in
      (code, rw made (rw (insert_paid_order c u code free) (rw listed refl)))

  -- The database refuses a line.
  pub settle_refused :
      (k : ℕ) (c : PendingCheckout) (u : Option User)
      → is_writable env c.snapshot.lines ≡ false
      → settle env k c none u s ≡ err integrity_error
  unfolding settle materialize_checkout
  settle_refused k c u gone =
      let (code, made, free) = generate_quote_code-free env s apart in
      rw made (rw (insert_paid_order c u code free) (rw gone refl))

  -- What taking a payment down does to a checkout that has no order yet.
  pub settle_open :
      (k : ℕ) (c : PendingCheckout) (u : Option User)
      → is_writable env c.snapshot.lines ≡ true
      → (code : Text) × (settle env k c none u s
          ≡ ok (
            s.orders.next,
            linked_store k c
                (paid_order env c u (next_order_number s) code)
                (s.alerts ++ order_alert s.orders.next ∷ [])
                s,
          ))
  unfolding settle
  settle_open k c u listed =
      let (code, done) = materialize_checkout_lem k c u listed in (code, rw done refl)

  pub linked_store-IsSound :
      (k : ℕ) (c : PendingCheckout) (u : Option User) (code : Text) (as' : List Alert)
      → s.checkouts.row k ≡ some c
      → c.order_id ≡ none
      → IsSound (linked_store k c (paid_order env c u (next_order_number s) code) as' s)
  linked_store-IsSound k c u code as' at open' =
      let (number, _, ref) = paid_order_keys env c u (next_order_number s) code in
      link-IsSound h k c (paid_order env c u (next_order_number s) code) as' at open' ref
        (omega (arith, next_order_number-le s h))
