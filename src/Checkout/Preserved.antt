-- ===== src/Checkout/Preserved.antt =====
-- The writes that the endpoints are made of keep the stored orders and checkouts sound.
use ebdental_api.Prelude.{
  ℕ, ◌≤◌, ◌≡◌, ◌≢◌, Option, none, some, List, arith, insert_row, set_row, inl, inr, ap, sym, ◌∙◌,
  ◌⊎◌,
}
use ebdental_api.Store.{Order, PendingCheckout, Store, Alert}
use ebdental_api.Checkout.Linked.{IsSound, row-update, update_self, update_ne}

module _ {s : Store} (h : IsSound s) where
  -- INSERT of an order that no checkout paid for.
  pub add_order-IsSound :
      (o : Order) (as' : List Alert)
      → o.payment_reference ≡ none
      → o.order_number ≤ s.orders.next
      → IsSound (record { orders = insert_row o s.orders; checkouts = s.checkouts; alerts = as' })
  add_order-IsSound o as' free small = record {
    orders_allocated = λ i a e. elim (row-update s.orders.next i (some o) s.orders.row e) [
      | inl (z, _) ↦ omega arith
      | inr (_, old) ↦ omega (arith, h.orders_allocated i a old)
    ];
    checkouts_allocated = h.checkouts_allocated;
    started = omega arith;
    numbered = λ i a e. elim (row-update s.orders.next i (some o) s.orders.row e) [
      | inl (z, new) ↦ ground arith
      | inr (_, old) ↦ h.numbered i a old
    ];
    references_apart = h.references_apart;
    linked = λ i a r e p. elim (row-update s.orders.next i (some o) s.orders.row e) [
      | inl (z, new) ↦ absurd (ground arith)
      | inr (_, old) ↦
          let (k, c, g) = h.linked i a r old p in
          (k, c, record { at = g.at; holds = g.holds; became = g.became })
    ];
  }

  -- The order of a checkout, and the checkout that became it.
  pub link-IsSound :
      (k : ℕ) (c : PendingCheckout) (o : Order) (as' : List Alert)
      → s.checkouts.row k ≡ some c
      → c.order_id ≡ none
      → o.payment_reference ≡ some c.reference
      → o.order_number ≤ s.orders.next
      → IsSound (record {
        orders = insert_row o s.orders;
        checkouts = set_row k (record c { order_id = some s.orders.next }) s.checkouts;
        alerts = as';
      })
  link-IsSound k c o as' at open' paid small =
      let c' : PendingCheckout = record c { order_id = some s.orders.next } in
      record {
        orders_allocated = λ i a e. elim (row-update s.orders.next i (some o) s.orders.row e) [
          | inl (z, _) ↦ omega arith
          | inr (_, old) ↦ omega (arith, h.orders_allocated i a old)
        ];
        checkouts_allocated = λ i a e. elim (row-update k i (some c') s.checkouts.row e) [
          | inl (z, _) ↦ omega (arith, h.checkouts_allocated k c at)
          | inr (_, old) ↦ h.checkouts_allocated i a old
        ];
        started = omega arith;
        numbered = λ i a e. elim (row-update s.orders.next i (some o) s.orders.row e) [
          | inl (z, new) ↦ ground arith
          | inr (_, old) ↦ h.numbered i a old
        ];
        references_apart = λ i j a b e f q. elim (row-update k i (some c') s.checkouts.row e) [
          | inl (z, new) ↦ elim (row-update k j (some c') s.checkouts.row f) [
            | inl (y, _) ↦ omega arith
            | inr (_, old) ↦ omega (arith, h.references_apart k j c b at old (cc))
          ]
          | inr (_, was) ↦ elim (row-update k j (some c') s.checkouts.row f) [
            | inl (y, new) ↦ omega (arith, h.references_apart i k a c was at (cc))
            | inr (_, old) ↦ h.references_apart i j a b was old q
          ]
        ];
        linked = λ i a r e p. elim (row-update s.orders.next i (some o) s.orders.row e) [
          | inl (z, new) ↦ (
            k,
            c',
            record { at = update_self k (some c') s.checkouts.row; holds = cc; became = cc },
          )
          | inr (_, old) ↦
              let (j, d, g) = h.linked i a r old p in
              let other : j ≢ k = λ y. cc (g.at, g.became, ap s.checkouts.row y) in
              (
                j,
                d,
                record {
                  at = update_ne k j (some c') s.checkouts.row other ∙ g.at;
                  holds = g.holds;
                  became = g.became;
                },
              )
        ];
      }

  -- An order that is edited in place keeps its number and its payment reference.
  pub edit_order-IsSound :
      (i : ℕ) (o o' : Order) (as' : List Alert)
      → s.orders.row i ≡ some o
      → o'.payment_reference ≡ o.payment_reference
      → o'.order_number ≡ o.order_number
      → IsSound (record { orders = set_row i o' s.orders; checkouts = s.checkouts; alerts = as' })
  edit_order-IsSound i o o' as' at same number = record {
    orders_allocated = λ j a e. elim (row-update i j (some o') s.orders.row e) [
      | inl (z, _) ↦ omega (arith, h.orders_allocated i o at)
      | inr (_, old) ↦ h.orders_allocated j a old
    ];
    checkouts_allocated = h.checkouts_allocated;
    started = h.started;
    numbered = λ j a e. elim (row-update i j (some o') s.orders.row e) [
      | inl (z, new) ↦ ground (arith, h.numbered i o at)
      | inr (_, old) ↦ h.numbered j a old
    ];
    references_apart = h.references_apart;
    linked = λ j a r e p. elim (row-update i j (some o') s.orders.row e) [
      | inl (z, new) ↦
          let (k, c, g) = h.linked i o r at (cc) in
          (k, c, record { at = g.at; holds = g.holds; became = cc (g.became, z) })
      | inr (_, old) ↦
          let (k, c, g) = h.linked j a r old p in
          (k, c, record { at = g.at; holds = g.holds; became = g.became })
    ];
  }

  -- A checkout under a reference that none has.
  pub add_checkout-IsSound :
      (c : PendingCheckout) (as' : List Alert)
      → ((k : ℕ) (d : PendingCheckout) → s.checkouts.row k ≡ some d → d.reference ≢ c.reference)
      → IsSound (record { orders = s.orders; checkouts = insert_row c s.checkouts; alerts = as' })
  add_checkout-IsSound c as' fresh = record {
    orders_allocated = h.orders_allocated;
    checkouts_allocated = λ j a e. elim (row-update s.checkouts.next j (some c) s.checkouts.row e) [
      | inl (z, _) ↦ omega arith
      | inr (_, old) ↦ omega (arith, h.checkouts_allocated j a old)
    ];
    started = h.started;
    numbered = h.numbered;
    references_apart = λ i j a b e f q.
        elim (row-update s.checkouts.next i (some c) s.checkouts.row e) [
          | inl (z, new) ↦ elim (row-update s.checkouts.next j (some c) s.checkouts.row f) [
            | inl (y, _) ↦ omega arith
            | inr (_, old) ↦ absurd (fresh j b old (cc))
          ]
          | inr (_, was) ↦ elim (row-update s.checkouts.next j (some c) s.checkouts.row f) [
            | inl (y, new) ↦ absurd (fresh i a was (cc))
            | inr (_, old) ↦ h.references_apart i j a b was old q
          ]
        ];
    linked = λ i a r e p.
        let (k, d, g) = h.linked i a r e p in
        let other : k ≢ s.checkouts.next =
          λ y. absurd (omega (arith, h.checkouts_allocated k d g.at)) in
        (
          k,
          d,
          record {
            at = update_ne s.checkouts.next k (some c) s.checkouts.row other ∙ g.at;
            holds = g.holds;
            became = g.became;
          },
        );
  }

  -- Checkouts that have not become an order may be dropped.
  pub drop_checkouts-IsSound :
      (row : ℕ → Option PendingCheckout)
      → ((k : ℕ) → (row k ≡ s.checkouts.row k) ⊎ (row k ≡ none))
      → ((k i : ℕ) (c : PendingCheckout)
          → s.checkouts.row k ≡ some c
          → c.order_id ≡ some i
          → row k ≡ some c)
      → IsSound (record {
        orders = s.orders;
        checkouts = record { next = s.checkouts.next; row = row };
        alerts = s.alerts;
      })
  drop_checkouts-IsSound row part keeps =
      let was : (k : ℕ) (c : PendingCheckout) → row k ≡ some c → s.checkouts.row k ≡ some c =
        λ k c e. elim (part k) [ inl q ↦ sym q ∙ e | inr q ↦ cc ] in
      record {
        orders_allocated = h.orders_allocated;
        checkouts_allocated = λ k c e. h.checkouts_allocated k c (was k c e);
        started = h.started;
        numbered = h.numbered;
        references_apart = λ i j a b e f q. h.references_apart i j a b (was i a e) (was j b f) q;
        linked = λ i a r e p.
            let (k, d, g) = h.linked i a r e p in
            (k, d, record { at = keeps k i d g.at g.became; holds = g.holds; became = g.became });
      }
