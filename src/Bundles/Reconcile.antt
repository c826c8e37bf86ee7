-- ===== src/Bundles/Reconcile.antt =====
-- app/core/bundles.py: replace_bundle_rows and replace_option_groups, which save a newly submitted
-- contents list over the one that is there.
use ebdental_api.Prelude.{
  ℕ, ◌≡◌, refl, false, Option, none, some, List, [], ◌∷◌, map, arith, ◌==◌, if◌then◌else◌, ap, ◌∙◌,
  member, Distinct,
}
use mathlib.Core.Path.{ap₂}
use ebdental_api.Http.{Result, ok, ◌>>=◌}
use ebdental_api.Catalog.{BundleRow, Catalog}
use ebdental_api.Bundles.Accepted.{products, IsSound-Distinct}
use ebdental_api.Bundles.Submit.{
  Item, GroupIn, GroupRow, build_bundle_rows, build_option_groups, IsSound, build_bundle_rows_iff,
}

-- A member of the list that replace_bundle_rows assigns: a saved row, whose id stays, or a new one,
-- whose id the database gives.
pub data Member : Type 0 where
  kept : BundleRow → Member
  added : ℕ → ℕ → Member

-- `current.pop(product_id, None)` on the dict of the saved rows by product.
pub take_row : ℕ → List BundleRow → Option BundleRow
take_row p [] = none
take_row p (r ∷ rs) = if r.product_id == p then some r else take_row p rs

drop_row : ℕ → List BundleRow → List BundleRow
drop_row p [] = []
drop_row p (r ∷ rs) = let rest = drop_row p rs in if r.product_id == p then rest else r ∷ rest

pub member_for : Option BundleRow → Item → Member
member_for none (p, qty) = added p qty
member_for (some r) (p, qty) = kept (record r { qty = qty })

reconcile : List BundleRow → List Item → List Member
unfolding take_row drop_row member_for
reconcile current [] = []
reconcile current ((p, qty) ∷ items) =
    member_for (take_row p current) (p, qty) ∷ reconcile (drop_row p current) items

-- The owner's rows after the call; on an error nothing has been touched.
pub replace_bundle_rows : Catalog → Option ℕ → List BundleRow → List Item → Result (List Member)
unfolding reconcile
replace_bundle_rows cat exclude current items = do
  rows ← build_bundle_rows cat exclude items
  ok (reconcile current rows)

-- Swaps the groups for the validated ones: clear, flush, assign.
replace_option_groups : Catalog → List GroupIn → Result (List GroupRow)
replace_option_groups cat groups = do rows ← build_option_groups cat groups; ok rows

take_row-drop_row :
    (p q : ℕ) (rows : List BundleRow)
    → (q == p) ≡ false
    → take_row q (drop_row p rows) ≡ take_row q rows
unfolding take_row drop_row
take_row-drop_row p q [] h = refl
take_row-drop_row p q (r ∷ rs) h = ground (arith, take_row-drop_row p q rs h)

-- What the list that is saved holds for one submitted item.
abbrev pub against : List BundleRow → Item → Member
against current (p, qty) = member_for (take_row p current) (p, qty)

map-against :
    (p : ℕ) (current : List BundleRow) (items : List Item)
    → member p (products items) ≡ false
    → map (against (drop_row p current)) items ≡ map (against current) items
map-against p current [] h = refl
map-against p current ((q, qty) ∷ items) h =
    ap₂ (λ (m : Member) ms. m ∷ ms)
      (ap (λ o. member_for o (q, qty)) (take_row-drop_row p q current (ground arith)))
      (map-against p current items (ground arith))

reconcile-eq-map :
    (current : List BundleRow) (items : List Item)
    → Distinct (products items)
    → reconcile current items ≡ map (against current) items
unfolding reconcile
reconcile-eq-map current [] h = refl
reconcile-eq-map current ((p, qty) ∷ items) h =
    ap (λ ms. member_for (take_row p current) (p, qty) ∷ ms)
      (reconcile-eq-map (drop_row p current) items h.1 ∙ map-against p current items h.0)

-- A submitted list that is accepted is saved member by member, in its order: a product that the
-- bundle already holds keeps its saved row and takes the submitted quantity, and only a product
-- that it does not hold gets a new row.
pub replace_bundle_rows-keeps :
    (cat : Catalog) (exclude : Option ℕ) (current : List BundleRow) (items : List Item)
    → IsSound cat exclude [] items
    → replace_bundle_rows cat exclude current items ≡ ok (map (against current) items)
unfolding replace_bundle_rows
replace_bundle_rows-keeps cat exclude current items h =
    rw ((build_bundle_rows_iff cat exclude items).1 h)
      (rw (reconcile-eq-map current items (IsSound-Distinct cat exclude [] items h)) refl)
