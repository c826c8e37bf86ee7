-- ===== src/Checkout/Once.antt =====
-- One payment, one order: whoever takes a payment down first writes the order, and everybody after
-- gets that order. A row of the catalogue that the snapshot names and that has gone meanwhile, or a
-- value that is out of its column's range, makes the database refuse the order.
use mathlib.Core.Path.{subst}
use ebdental_api.Prelude.{
  ℕ, ◌≡◌, ◌⊎◌, refl, true, false, Bool-cases, Option, none, some, [], ◌∷◌, ◌++◌, Text, Option-cases,
  inl, inr, ap, sym, ◌∙◌,
}
use ebdental_api.Http.{
  Result, ok, err, integrity_error, checkout_not_found, or_raise, >>=-eq-ok, or_raise-eq-ok,
  ok-injective,
}
use ebdental_api.Accounts.{User}
use ebdental_api.Store.{Order, PendingCheckout, Store, Env, order_alert, next_order_number}
use ebdental_api.Store.Codes.{PrintsApart}
use ebdental_api.Checkout.{
  settle, poll_lock, confirm_checkout_manually, sweep_lock, sweep_locked, store_after, paid_order,
}
use ebdental_api.Checkout.Linked.{IsSound, update_self}
use ebdental_api.Snapshot.Keys.{is_writable}
use ebdental_api.Checkout.Materialize.{
  settle_open, settle_refused, linked_store, linked_store-IsSound,
}

-- The checkout `k` has become the order `i`.
pub record HasBecome (k i : ℕ) (s : Store) : Type 0 where
  pub row : PendingCheckout
  pub at : s.checkouts.row k ≡ some row
  pub linked : row.order_id ≡ some i

-- Whatever comes later, the same order is answered and nothing is written or sent.
pub record IsFinal (k i : ℕ) (s : Store) : Type 0 where
  pub polls : (env : Env) → poll_lock env k s ≡ ok (i, s)
  pub confirms : (env : Env) (u : User) → confirm_checkout_manually env k u s ≡ ok (i, s)
  pub sweeps : (env : Env) → sweep_lock env k s ≡ s

pub settle_linked :
    (env : Env) (k i : ℕ) (c : PendingCheckout) (u : Option User) (s : Store)
    → c.order_id ≡ some i
    → settle env k c c.order_id u s ≡ ok (i, s)
unfolding settle
settle_linked env k i c u s e = rw e refl

pub HasBecome-IsFinal : {k i : ℕ} {s : Store} → HasBecome k i s → IsFinal k i s
HasBecome-IsFinal {k} {i} {s} h = record {
  polls = λ env. unfold poll_lock in rw h.at (settle_linked env k i h.row none s h.linked);
  confirms = λ env u.
      unfold confirm_checkout_manually in rw h.at (settle_linked env k i h.row (some u) s h.linked);
  sweeps = λ env.
      unfold sweep_lock sweep_locked store_after in
      rw h.at (ap (store_after s) (settle_linked env k i h.row none s h.linked));
}

-- The payment is taken down: the answer is an order, the new data is sound, and from then on everybody
-- gets that order and changes nothing.
abbrev pub EndsInOrder : ℕ → Result (ℕ × Store) → Type 0
EndsInOrder k answer = (i : ℕ) × (s' : Store) × (answer ≡ ok (i, s')) × IsSound s' × IsFinal k i s'

-- The checkout has no order, and a line of its snapshot names a product, promotion or set that is not in
-- the catalogue any more, or has a value that is out of its column's range: the request ends in the
-- database's error, and writes nothing.
abbrev pub IsRefusedFor {ℓ} : {A : Type ℓ} → Env → PendingCheckout → Result A → Type ℓ
IsRefusedFor env c answer =
    (c.order_id ≡ none)
    × (is_writable env c.snapshot.lines ≡ false)
    × (answer ≡ err integrity_error)

-- The same, of a payment that is being taken down.
abbrev IsTaken : ℕ → Result (ℕ × Store) → Type 0
IsTaken k answer = (i : ℕ) × (s' : Store) × (answer ≡ ok (i, s')) × IsSound s' × HasBecome k i s'

module _ (env : Env) (apart : PrintsApart env) (s : Store) (h : IsSound s) where
  -- The order of a checkout that has none, where the catalogue still has what it names.
  pub settle_listed :
      (k : ℕ) (c : PendingCheckout) (u : Option User)
      → s.checkouts.row k ≡ some c
      → is_writable env c.snapshot.lines ≡ true
      → IsTaken k (settle env k c c.order_id u s)
  settle_listed k c u at listed = elim (Option-cases c.order_id) [
    | inl e ↦
        let (code, done) = settle_open env apart s h k c u listed in
        let as' = s.alerts ++ order_alert s.orders.next ∷ [] in
        let o = paid_order env c u (next_order_number s) code in
        (
          s.orders.next,
          linked_store k c o as' s,
          ap (λ x. settle env k c x u s) e ∙ done,
          linked_store-IsSound env apart s h k c u code as' at e,
          record {
            row = record c { order_id = some s.orders.next };
            at = update_self k _ s.checkouts.row;
            linked = refl;
          },
        )
    | inr (i, e) ↦ (i, s, settle_linked env k i c u s e, h, record { row = c; at = at; linked = e })
  ]

  -- Taking a payment down, whether or not it has been before.
  pub settle_lem :
      (k : ℕ) (c : PendingCheckout) (u : Option User)
      → s.checkouts.row k ≡ some c
      → IsTaken k (settle env k c c.order_id u s)
        ⊎ IsRefusedFor env c (settle env k c c.order_id u s)
  settle_lem k c u at = elim (Bool-cases (is_writable env c.snapshot.lines)) [
    | inl listed ↦ inl (settle_listed k c u at listed)
    | inr gone ↦ elim (Option-cases c.order_id) [
      | inl e ↦
          inr (e, gone, ap (λ x. settle env k c x u s) e ∙ settle_refused env apart s h k c u gone)
      | inr (i, e) ↦
          inl (i, s, settle_linked env k i c u s e, h, record { row = c; at = at; linked = e })
    ]
  ]

  -- The sweep's lock, after the provider's yes, on a checkout that is still in the table and whose
  -- lines the database takes: afterwards it has an order, and the data is sound. The stored data was sound, and printing tells numbers apart.
  pub sweep_lock-once :
      (k : ℕ) (c : PendingCheckout)
      → s.checkouts.row k ≡ some c
      → is_writable env c.snapshot.lines ≡ true
      → (i : ℕ) × IsSound (sweep_lock env k s) × HasBecome k i (sweep_lock env k s)
  unfolding sweep_lock sweep_locked store_after
  sweep_lock-once k c at listed =
      let (i, s', done, sound, became) = settle_listed k c none at listed in
      let after : sweep_lock env k s ≡ s' = rw at (ap (store_after s) done) in
      (i, subst IsSound (sym after) sound, subst (HasBecome k i) (sym after) became)

-- The same, of whatever the three answered.
module _ (env : Env) (apart : PrintsApart env) (s : Store) (h : IsSound s) where
  settle-IsSound :
      (k : ℕ) (c : PendingCheckout) (u : Option User) {r : ℕ × Store}
      → s.checkouts.row k ≡ some c
      → settle env k c c.order_id u s ≡ ok r
      → IsSound r.1
  settle-IsSound k c u at e = elim (settle_lem env apart s h k c u at) [
    | inl (i, s', done, sound, _) ↦
        subst (λ (x : ℕ × Store). IsSound x.1) (ok-injective (sym done ∙ e)) sound
    | inr (_, _, refused) ↦ cc
  ]

  pub locked-IsSound : (k : ℕ) {r : ℕ × Store} → poll_lock env k s ≡ ok r → IsSound r.1
  unfolding poll_lock
  locked-IsSound k e =
      let (c, at, e1) = >>=-eq-ok (or_raise (s.checkouts.row k) integrity_error) _ e in
      settle-IsSound k c none (or_raise-eq-ok _ integrity_error at) e1

  pub confirmed-IsSound :
      (k : ℕ) (u : User) {r : ℕ × Store} → confirm_checkout_manually env k u s ≡ ok r → IsSound r.1
  unfolding confirm_checkout_manually
  confirmed-IsSound k u e =
      let (c, at, e1) = >>=-eq-ok (or_raise (s.checkouts.row k) checkout_not_found) _ e in
      settle-IsSound k c (some u) (or_raise-eq-ok _ checkout_not_found at) e1

  -- The poll's lock on a checkout that has no order yet.
  pub poll_lock-open :
      (k : ℕ) (c : PendingCheckout)
      → s.checkouts.row k ≡ some c
      → c.order_id ≡ none
      → is_writable env c.snapshot.lines ≡ true
      → (code : Text) × (poll_lock env k s
          ≡ ok (
            s.orders.next,
            linked_store k c
                (paid_order env c none (next_order_number s) code)
                (s.alerts ++ order_alert s.orders.next ∷ [])
                s,
          ))
  unfolding poll_lock
  poll_lock-open k c at open' listed =
      let (code, done) = settle_open env apart s h k c none listed in
      (code, rw at (ap (λ x. settle env k c x none s) open' ∙ done))

  pub swept-IsSound : (k : ℕ) → IsSound (sweep_lock env k s)
  unfolding sweep_lock sweep_locked store_after
  swept-IsSound k = elim (Option-cases (s.checkouts.row k)) [
    | inl e ↦ rw e h
    | inr (c, at) ↦ elim (settle_lem env apart s h k c none at) [
      | inl (i, s', done, sound, _) ↦
          let after : sweep_lock env k s ≡ s' = rw at (ap (store_after s) done) in
          subst IsSound (sym after) sound
      | inr (_, _, refused) ↦
          let after : sweep_lock env k s ≡ s = rw at (ap (store_after s) refused) in
          subst IsSound (sym after) h
    ]
  ]

-- In sound data two orders never carry the same payment.
pub one_order_per_payment :
    (s : Store)
    → IsSound s
    → (i j : ℕ) (o p : Order) (r : Text) → s.orders.row i ≡ some o
    → s.orders.row j ≡ some p
    → o.payment_reference ≡ some r
    → p.payment_reference ≡ some r
    → i ≡ j
one_order_per_payment s h i j o p r ei ej ri rj =
    let (k, c, g) = h.linked i o r ei ri in
    let (l, d, f) = h.linked j p r ej rj in
    let same : k ≡ l = h.references_apart k l c d g.at f.at (g.holds ∙ sym f.holds) in
    let row : d ≡ c = cc (ap s.checkouts.row same, g.at, f.at) in cc (row, g.became, f.became)
