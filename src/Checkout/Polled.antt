-- ===== src/Checkout/Polled.antt =====
-- The whole poll of a checkout, where nothing else commits between its halves.
use ebdental_api.Prelude.{ℕ, ◌≡◌, true, false, none}
use ebdental_api.Http.{Result, ok}
use ebdental_api.Store.{PendingCheckout, Store, Env}
use ebdental_api.Checkout.{CheckoutStatus, checkout_paid, checkout_is_paid, poll_unpaid}
use ebdental_api.Checkout.Linked.{IsSound}
use ebdental_api.Checkout.Once.{IsFinal, IsRefusedFor}

-- The poll answered that the checkout is paid, with the one order that it has become for good.
abbrev pub EndsPaid : ℕ → Result (CheckoutStatus × Store) → Type 0
EndsPaid k answer =
    (i : ℕ) × (s' : Store) × (answer ≡ ok (checkout_paid i, s')) × IsSound s' × IsFinal k i s'

-- The provider reports the payment, but the database refuses a line of the snapshot: the poll ends in its
-- error, and writes nothing.
abbrev pub IsLost : Env → PendingCheckout → Result (CheckoutStatus × Store) → Type 0
IsLost env c answer = (checkout_is_paid env c ≡ true) × IsRefusedFor env c answer

-- The poll found no order and no payment, and answered "expired" or "unpaid" without writing.
abbrev pub StaysOpen : Env → PendingCheckout → Store → Result (CheckoutStatus × Store) → Type 0
StaysOpen env c s answer =
    (c.order_id ≡ none) × (checkout_is_paid env c ≡ false) × (answer ≡ ok (poll_unpaid env c, s))
