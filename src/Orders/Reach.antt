-- ===== src/Orders/Reach.antt =====
-- Every request on orders and checkouts, and the sweep, as a step from one stored state to the next.
-- Each may be made at any moment, with any catalog, provider and caller; the halves of the two polls and
-- of the sweep that follow the provider's answer are steps of their own, so that any other request may
-- come between.
use ebdental_api.Prelude.{ℕ, ◌≡◌, Option, none, [], Text, arith, sym}
use mathlib.Core.Path.{subst}
use ebdental_api.Http.{ok}
use ebdental_api.Catalog.{Catalog}
use ebdental_api.Accounts.{User, Principal}
use ebdental_api.Store.{Order, PendingCheckout, Store, Env, PaymentStatus}
use ebdental_api.Store.Codes.{PrintsApart, IsApart}
use ebdental_api.Pricing.{OrderCreate}
use ebdental_api.Checkout.{create_checkout, poll_lock, confirm_checkout_manually, sweep_lock, prune}
use ebdental_api.Checkout.Linked.{IsSound}
use ebdental_api.Checkout.Parked.{create_checkout-IsSound}
use ebdental_api.Checkout.Once.{locked-IsSound, confirmed-IsSound, swept-IsSound}
use ebdental_api.Checkout.Sweep.{prune-IsSound}
use ebdental_api.Orders.{
  create_order, check_payment_status, status_write, generate_order_khqr, refund_order, delete_order,
}
use ebdental_api.Orders.Update.{OrderUpdate, update_order}
use ebdental_api.Orders.Steps.{
  create_order-IsSound, check_payment_status-IsSound, status_write-IsSound,
  generate_order_khqr-IsSound, update_order-IsSound, refund_order-IsSound,
}
use ebdental_api.Orders.Deleted.{delete_order-IsSound}

pub data Step (env : Env) (s : Store) : Store → Type 0 where
  quoted :
      {s' : Store} (cat : Catalog) (payload : OrderCreate) (principal : Principal) (i : ℕ)
      → create_order cat env payload principal s ≡ ok (i, s')
      → Step env s s'
  parked :
      {s' : Store} (cat : Catalog) (payload : OrderCreate) (principal : Principal)
      (c : PendingCheckout)
      → create_checkout cat env payload principal s ≡ ok (c, s')
      → Step env s s'
  polled : {s' : Store} (k i : ℕ) → poll_lock env k s ≡ ok (i, s') → Step env s s'
  confirmed :
      {s' : Store} (k i : ℕ) (user : User)
      → confirm_checkout_manually env k user s ≡ ok (i, s')
      → Step env s s'
  swept : (k : ℕ) → Step env s (sweep_lock env k s)
  pruned : Step env s (prune env s)
  observed :
      {s' : Store} (i : ℕ) (principal : Principal) (p : Option PaymentStatus)
      → check_payment_status env i principal s ≡ ok (p, s')
      → Step env s s'
  witnessed :
      {s' : Store} (i : ℕ) (p : Option PaymentStatus)
      → status_write env i s ≡ ok (p, s')
      → Step env s s'
  issued :
      {s' : Store} (i : ℕ) (o : Order) → generate_order_khqr env i s ≡ ok (o, s') → Step env s s'
  edited :
      {s' : Store} (cat : Catalog) (i : ℕ) (f : OrderUpdate) (user : User) (o : Order)
      → update_order cat env i f user s ≡ ok (o, s')
      → Step env s s'
  returned :
      {s' : Store} (i : ℕ) (reason : Option Text) (user : User) (o : Order)
      → refund_order env i reason user s ≡ ok (o, s')
      → Step env s s'
  deleted : {s' : Store} (i : ℕ) (user : User) → delete_order i user s ≡ ok s' → Step env s s'

-- The tables as they are created.
abbrev pub empty_store : Store
empty_store = record {
  orders = record { next = 1; row = λ _. none };
  checkouts = record { next = 1; row = λ _. none };
  alerts = [];
}

-- The states that sequences of steps lead to. Python's `str` of a number is the same at every step.
pub data Reached (str_int : ℕ → Text) : Store → Type 0 where
  created : Reached str_int empty_store
  stepped :
      {s s' : Store} (env : Env)
      → env.str_int ≡ str_int
      → Reached str_int s
      → Step env s s'
      → Reached str_int s'

empty_store-IsSound : IsSound empty_store
empty_store-IsSound = record {
  orders_allocated = λ i a e. cc;
  checkouts_allocated = λ i a e. cc;
  started = omega arith;
  numbered = λ i a e. cc;
  references_apart = λ j k c d e f q. cc;
  linked = λ i a r e p. cc;
}

Step-IsSound : {env : Env} {s s' : Store} → PrintsApart env → IsSound s → Step env s s' → IsSound s'
Step-IsSound {env} {s} apart h (quoted cat payload principal i e) =
    create_order-IsSound cat env payload principal s h e
Step-IsSound {env} {s} apart h (parked cat payload principal c e) =
    create_checkout-IsSound cat env payload principal s apart h e
Step-IsSound {env} {s} apart h (polled k i e) = locked-IsSound env apart s h k e
Step-IsSound {env} {s} apart h (confirmed k i user e) = confirmed-IsSound env apart s h k user e
Step-IsSound {env} {s} apart h (swept k) = swept-IsSound env apart s h k
Step-IsSound {env} apart h pruned = prune-IsSound env h
Step-IsSound {env} {s} apart h (observed i principal p e) =
    check_payment_status-IsSound env i principal s h e
Step-IsSound {env} {s} apart h (witnessed i p e) = status_write-IsSound env i s h e
Step-IsSound {env} {s} apart h (issued i o e) = generate_order_khqr-IsSound env i s h e
Step-IsSound {env} {s} apart h (edited cat i f user o e) =
    update_order-IsSound cat env i f user s h e
Step-IsSound {env} {s} apart h (returned i reason user o e) =
    refund_order-IsSound env i reason user s h e
Step-IsSound {s = s} apart h (deleted i user e) = delete_order-IsSound i user s h e

-- Whatever sequence of requests and sweeps has run since the tables were created, whoever made them
-- and whatever the providers answered, the stored orders and checkouts are sound: no id is in use that
-- is still to be given, no order's number is above its id, no two checkouts share a reference, and an
-- order that was paid through a checkout is the one that the checkout became. Printing is to tell
-- numbers apart.
pub Reached-IsSound :
    (str_int : ℕ → Text) → IsApart str_int → (s : Store) → Reached str_int s → IsSound s
Reached-IsSound str_int apart s created = empty_store-IsSound
Reached-IsSound str_int apart s (stepped {s = before} env same h step) =
    Step-IsSound (subst IsApart (sym same) apart) (Reached-IsSound str_int apart before h) step
