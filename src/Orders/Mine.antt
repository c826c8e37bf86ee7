-- ===== src/Orders/Mine.antt =====
-- A principal's own orders: the list and the single read agree.
use mathlib.Core.List.{Memᴰ}
use mathlib.Core.List.Memᴰ.{head, tail}
use ebdental_api.Prelude.{
  ℕ, zero, suc, ◌<◌, ◌≡◌, ◌↔◌, ◌⊎◌, refl, true, not, Option, some, List, [], ◌∷◌, arith, ◌==◌,
  ==_iff, keep_if, rows_below, not-eq-false, Bool-cases, Option-cases, Bool, inl, inr, ap, sym, ◌∙◌,
}
use ebdental_api.Http.{
  ok, order_not_found, or_raise, >>=-eq-ok, guard-eq-ok, or_raise-eq-ok, ok-injective,
}
use ebdental_api.Accounts.{Principal}
use ebdental_api.Store.{Order, Store}
use ebdental_api.Checkout.Linked.{IsSound}
use ebdental_api.Orders.{placed_by, get_my_order, list_my_orders}

module _ {A : Type 0} where
  here_or : {x y : A} {l : List A} → Memᴰ x (y ∷ l) → (x ≡ y) ⊎ Memᴰ x l
  here_or (head e) = inl e
  here_or (tail m) = inr m

  keep_if_sound :
      (test : A → Bool) (x : A) (l : List A) → Memᴰ x (keep_if test l) → Memᴰ x l × (test x ≡ true)
  keep_if_sound test x [] m = elim m [ ]
  keep_if_sound test x (y ∷ l) m = elim (Bool-cases (test y)) [
    | inl e ↦
        let m1 : Memᴰ x (y ∷ keep_if test l) = rw e at m in
        elim (here_or m1) [
          | inl same ↦ (head same, ap test same ∙ e)
          | inr rest ↦ let (i, t) = keep_if_sound test x l rest in (tail i, t)
        ]
    | inr e ↦
        let m1 : Memᴰ x (keep_if test l) = rw e at m in
        let (i, t) = keep_if_sound test x l m1 in (tail i, t)
  ]

  keep_if_complete :
      (test : A → Bool) (x : A) (l : List A) → Memᴰ x l → test x ≡ true → Memᴰ x (keep_if test l)
  keep_if_complete test x [] m t = elim m [ ]
  keep_if_complete test x (y ∷ l) m t = elim (Bool-cases (test y)) [
    | inl e ↦ elim (here_or m) [
      | inl same ↦ rw e (head same)
      | inr rest ↦ rw e (tail (keep_if_complete test x l rest t))
    ]
    | inr e ↦ elim (here_or m) [
      | inl same ↦ absurd (cc (ap test same, t, e))
      | inr rest ↦ rw e (keep_if_complete test x l rest t)
    ]
  ]

module _ {A : Type 0} where
  rows_below_sound :
      (row : ℕ → Option A) (n k : ℕ) (a : A) → Memᴰ (k, a) (rows_below n row) → row k ≡ some a
  rows_below_sound row zero k a m = elim m [ ]
  rows_below_sound row (suc n) k a m = elim (Option-cases (row n)) [
    | inl e ↦ let m1 : Memᴰ (k, a) (rows_below n row) = rw e at m in rows_below_sound row n k a m1
    | inr (b, e) ↦
        let m1 : Memᴰ (k, a) ((n, b) ∷ rows_below n row) = rw e at m in
        elim (here_or m1) [
          | inl same ↦
              ap row (ap (λ (r : ℕ × A). r.0) same)
              ∙ e
              ∙ ap some (sym (ap (λ (r : ℕ × A). r.1) same))
          | inr rest ↦ rows_below_sound row n k a rest
        ]
  ]

  rows_below_complete :
      (row : ℕ → Option A) (n k : ℕ) (a : A)
      → k < n
      → row k ≡ some a
      → Memᴰ (k, a) (rows_below n row)
  rows_below_complete row zero k a below at = absurd (omega arith)
  rows_below_complete row (suc n) k a below at = elim (Bool-cases (k == n)) [
    | inl e ↦
        let same : k ≡ n = (==_iff k n).0 e in
        let here : row n ≡ some a = ap row (sym same) ∙ at in rw here (head (λ i. (same i, a)))
    | inr e ↦
        let rest = rows_below_complete row n k a (ground arith) at in
        elim (Option-cases (row n)) [ inl f ↦ rw f rest | inr (b, f) ↦ rw f (tail rest) ]
  ]

-- The list of one's own orders and the read of one order agree: an order is in the list, under its id,
-- exactly if reading that id answers it. The stored data is sound.
pub list_my_orders_iff :
    (principal : Principal) (s : Store) (i : ℕ) (o : Order)
    → IsSound s
    → Memᴰ (i, o) (list_my_orders principal s) ↔ (get_my_order i principal s ≡ ok o)
unfolding list_my_orders get_my_order
list_my_orders_iff principal s i o h = (
  λ m.
      let (listed, mine) =
        keep_if_sound (λ (r : ℕ × Order). placed_by principal r.1) (i, o)
          (rows_below s.orders.next s.orders.row) m in
      rw (rows_below_sound s.orders.row s.orders.next i o listed) (rw mine refl),
  λ e.
      let (p, at, e1) = >>=-eq-ok (or_raise (s.orders.row i) order_not_found) _ e in
      let (mine, e2) = guard-eq-ok {b = not (placed_by principal p)} order_not_found e1 in
      let same : p ≡ o = ok-injective e2 in
      let here : s.orders.row i ≡ some o = or_raise-eq-ok _ order_not_found at ∙ ap some same in
      keep_if_complete (λ (r : ℕ × Order). placed_by principal r.1) (i, o)
        (rows_below s.orders.next s.orders.row)
        (rows_below_complete s.orders.row s.orders.next i o (h.orders_allocated i o here) here)
        (ap (placed_by principal) (sym same) ∙ not-eq-false _ mine),
)
