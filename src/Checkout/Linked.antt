-- ===== src/Checkout/Linked.antt =====
-- What holds of the stored orders and checkouts between two requests, and what it says of order
-- numbers.
use ebdental_api.Prelude.{
  ℕ, zero, suc, ◌+◌, ◌≤◌, ◌<◌, ◌≡◌, ◌≢◌, refl, false, Option, some, arith, Text, ◌==◌, ==_iff, any,
  rows_below, update, IsAllocated, Bool-cases, Option-cases, inl, inr, ◌⊎◌,
}
use ebdental_api.Store.{Order, PendingCheckout, Store, next_order_number, last_number}
use ebdental_api.Checkout.{number_taken}

-- A checkout that holds the payment `r` and has become the order `i`.
pub record IsHolder (s : Store) (r : Text) (i k : ℕ) (c : PendingCheckout) : Type 0 where
  pub at : s.checkouts.row k ≡ some c
  pub holds : c.reference ≡ r
  pub became : c.order_id ≡ some i

pub record IsSound (s : Store) : Type 0 where
  pub orders_allocated : IsAllocated s.orders
  pub checkouts_allocated : IsAllocated s.checkouts
  -- the ids begin at 1
  pub started : 0 < s.orders.next
  -- an order's number is never above its id
  pub numbered : (i : ℕ) (o : Order) → s.orders.row i ≡ some o → o.order_number ≤ i
  pub references_apart :
      (j k : ℕ) (c d : PendingCheckout)
      → s.checkouts.row j ≡ some c
      → s.checkouts.row k ≡ some d
      → c.reference ≡ d.reference
      → j ≡ k
  -- an order that was paid through a checkout is the one that the checkout became
  pub linked :
      (i : ℕ) (o : Order) (r : Text)
      → s.orders.row i ≡ some o
      → o.payment_reference ≡ some r
      → (k : ℕ) × (c : PendingCheckout) × IsHolder s r i k c

-- Reading a table after one row is written.
module _ {A : Type 0} where
  pub row-update :
      (k i : ℕ) (v : Option A) (row : ℕ → Option A) {a : A}
      → update k v row i ≡ some a
      → ((i ≡ k) × (v ≡ some a)) ⊎ ((i ≢ k) × (row i ≡ some a))
  row-update k i v row h = elim (Bool-cases (i == k)) [
    | inl e ↦ inl ((==_iff i k).0 e, ground arith)
    | inr e ↦ inr (ground arith, ground arith)
  ]

  pub update_self : (k : ℕ) (v : Option A) (row : ℕ → Option A) → update k v row k ≡ v
  update_self k v row = ground arith

  pub update_ne : (k i : ℕ) (v : Option A) (row : ℕ → Option A) → i ≢ k → update k v row i ≡ row i
  update_ne k i v row h = ground arith

module _ (row : ℕ → Option Order)
    (numbered : (i : ℕ) (o : Order) → row i ≡ some o → o.order_number ≤ i) where
  -- No row below `n` has a number from `n` on.
  no_number :
      (n m : ℕ) → n ≤ m → any (λ (r : ℕ × Order). r.1.order_number == m) (rows_below n row) ≡ false
  no_number zero m h = refl
  no_number (suc n) m h = elim (Option-cases (row n)) [
    | inl e ↦ rw e (no_number n m (omega arith))
    | inr (o, e) ↦ rw e (ground (arith, no_number n m, numbered n o e))
  ]

  last_number-free :
      (n : ℕ)
      → any
          (λ (r : ℕ × Order). r.1.order_number == last_number (rows_below n row))
          (rows_below n row)
        ≡ false
  last_number-free zero = refl
  last_number-free (suc n) = elim (Option-cases (row n)) [
    | inl e ↦ rw e (last_number-free n)
    | inr (o, e) ↦ rw e (ground (arith, no_number n (n + 1), numbered n o e))
  ]

  last_number-le : (n : ℕ) → 0 < n → last_number (rows_below n row) ≤ n
  last_number-le zero h = absurd (omega arith)
  last_number-le (suc zero) h = elim (Option-cases (row 0)) [
    | inl e ↦ rw e (omega arith)
    | inr (o, e) ↦ rw e (omega arith)
  ]
  last_number-le (suc (suc n)) h = elim (Option-cases (row (suc n))) [
    | inl e ↦ rw e (omega (arith, last_number-le (suc n)))
    | inr (o, e) ↦ rw e (omega arith)
  ]

-- A new order's number is on no other order, and is at most the id that the order gets.
pub next_order_number-free : (s : Store) → IsSound s → number_taken s (next_order_number s) ≡ false
unfolding next_order_number
next_order_number-free s h = last_number-free s.orders.row h.numbered s.orders.next

pub next_order_number-le : (s : Store) → IsSound s → next_order_number s ≤ s.orders.next
unfolding next_order_number
next_order_number-le s h = last_number-le s.orders.row h.numbered s.orders.next h.started
