-- ===== src/Lines/Forgotten.antt =====
-- app/models.py::OrderItem: product_id, promotion_id and set_id of a saved line become NULL when the row
-- that they name is deleted (ON DELETE SET NULL), and what an edit then reads off the line.
use ebdental_api.Prelude.{
  ℕ, ◌+◌, ◌≡◌, refl, Bool, false, not, ◌&&◌, ◌||◌, Option, none, some, List, [], ◌∷◌, map, arith,
  if◌then◌else◌, is_some, ◌∙◌,
}
use ebdental_api.Http.{ok}
use ebdental_api.Catalog.{Money, Catalog}
use ebdental_api.Lines.{
  OrderItem, OrderItemCreate, Line, Priced, is_discountable, build_order_lines, persisted_totals,
}
use ebdental_api.Lines.Amounts.{
  amount_of, discountable_of, persisted_totals-eq-sums, build_order_lines-IsTotalled,
}

-- Which rows have been deleted.
pub record Deleted : Type 0 where
  pub product : ℕ → Bool
  pub promotion : ℕ → Bool
  pub bundle : ℕ → Bool

-- A foreign key after the deletions.
abbrev pub set_null : (ℕ → Bool) → Option ℕ → Option ℕ
set_null gone none = none
set_null gone (some k) = if gone k then none else some k

abbrev pub forget_item : Deleted → OrderItem → OrderItem
forget_item gone x = record x {
  product_id = set_null gone.product x.product_id;
  promotion_id = set_null gone.promotion x.promotion_id;
  set_id = set_null gone.bundle x.set_id;
}

-- The saved lines after the deletions.
pub forget_deleted : Deleted → List Line → List Line
forget_deleted gone [] = []
forget_deleted gone (l ∷ ls) =
    record { parent = forget_item gone l.parent; components = map (forget_item gone) l.components }
    ∷ forget_deleted gone ls

abbrev pub names_deleted : (ℕ → Bool) → Option ℕ → Bool
names_deleted gone none = false
names_deleted gone (some k) = gone k

-- A charged line of a promotion or a set, every one of which that it names has been deleted.
abbrev pub is_orphan : Deleted → OrderItem → Bool
is_orphan gone x =
    not (is_discountable x)
    && (not (is_some x.promotion_id) || names_deleted gone.promotion x.promotion_id)
    && (not (is_some x.set_id) || names_deleted gone.bundle x.set_id)

-- What the orphans come to.
abbrev pub orphaned_of : Deleted → List Line → Money
orphaned_of gone [] = 0
orphaned_of gone (l ∷ ls) =
    (if is_orphan gone l.parent then l.parent.line_amount else 0) + orphaned_of gone ls

amount_of-forget :
    (gone : Deleted) (ls : List Line) → amount_of (forget_deleted gone ls) ≡ amount_of ls
unfolding forget_deleted
amount_of-forget gone [] = refl
amount_of-forget gone (l ∷ ls) = omega (arith, amount_of-forget gone ls)

is_some-set_null :
    (gone : ℕ → Bool) (o : Option ℕ)
    → is_some (set_null gone o) ≡ (is_some o && not (names_deleted gone o))
is_some-set_null gone none = refl
is_some-set_null gone (some k) = ground arith

discountable-forget :
    (gone : Deleted) (x : OrderItem)
    → (if is_discountable (forget_item gone x) then x.line_amount else 0)
      ≡ (if is_discountable x then x.line_amount else 0)
        + (if is_orphan gone x then x.line_amount else 0)
discountable-forget gone x =
    ground
      (arith, is_some-set_null gone.promotion x.promotion_id, is_some-set_null gone.bundle x.set_id)

discountable_of-forget :
    (gone : Deleted) (ls : List Line)
    → discountable_of (forget_deleted gone ls) ≡ discountable_of ls + orphaned_of gone ls
unfolding forget_deleted
discountable_of-forget gone [] = refl
discountable_of-forget gone (l ∷ ls) =
    omega (arith, discountable-forget gone l.parent, discountable_of-forget gone ls)

-- The totals that an edit of the discount alone reads off the lines of a cart that was saved, whatever
-- has been deleted since. The subtotal is the one that the cart was built with. The base of the
-- order-level discount is the one it was built with and, on top, the amounts of the lines whose promotion
-- or set has been deleted: so it is the same where no promotion and no set of the cart has gone.
pub persisted_totals-forget_deleted :
    (cat : Catalog) (now : ℕ) (lines : List OrderItemCreate) (gone : Deleted) {p : Priced}
    → build_order_lines cat now lines ≡ ok p
    → persisted_totals (forget_deleted gone p.items)
      ≡ (p.subtotal, p.discountable_subtotal + orphaned_of gone p.items)
persisted_totals-forget_deleted cat now lines gone {p} e =
    let h = build_order_lines-IsTotalled cat now lines e in
    persisted_totals-eq-sums (forget_deleted gone p.items)
    ∙ ground (
      arith,
      amount_of-forget gone p.items,
      discountable_of-forget gone p.items,
      h.subtotal_sums,
      h.discountable_sums,
    )
