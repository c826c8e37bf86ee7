-- ===== src/Checkout/Reconciled.antt =====
-- One pass of the sweep over the payments that the provider has seen.
use ebdental_api.Prelude.{
  ℕ, ◌≡◌, true, Option, none, some, List, if◌then◌else◌, keep_if, rows_below,
}
use ebdental_api.Store.{PendingCheckout, Order, Store, Env, Alert}
use ebdental_api.Store.Codes.{PrintsApart}
use ebdental_api.Checkout.{checkout_is_paid, is_outstanding, sweep_lock}
use ebdental_api.Checkout.Materialize.{linked_store}
use ebdental_api.Snapshot.Keys.{is_writable}

-- The row `k` is still in the table, and the database takes the lines of its snapshot.
abbrev Lives : Env → ℕ → Store → Type 0
Lives env k s =
    (c : PendingCheckout) × (s.checkouts.row k ≡ some c) × (is_writable env c.snapshot.lines ≡ true)

-- What the lock on `j` does to the store.
abbrev Links : Env → ℕ → Store → Type 0
Links env j s =
    (c : PendingCheckout) × (o : Order) × (as' : List Alert) × (s.checkouts.row j ≡ some c)
    × (c.order_id ≡ none)
    × (sweep_lock env j s ≡ linked_store j c o as' s)

module _ (env : Env) (apart : PrintsApart env) where
  -- The store that one outstanding checkout leaves.
  sweep_one : PendingCheckout → ℕ → Store → Store
  sweep_one c k s = if checkout_is_paid env c then sweep_lock env k s else s

  -- The rows that the sweep goes through.
  abbrev outstanding : ℕ → (ℕ → Option PendingCheckout) → List (ℕ × PendingCheckout)
  outstanding n row =
      keep_if (λ (r : ℕ × PendingCheckout). is_outstanding env r.1) (rows_below n row)
