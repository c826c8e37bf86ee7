-- ===== src/Bundles/Contents.antt =====
-- What set_contents and bundle_old_price come to: each claimed product once, and a "was" price that
-- is the sum of the parts.
use ebdental_api.Prelude.{
  ℕ, ◌+◌, ◌∙◌, ap, Option-cases, ◌*◌, ◌≡◌, refl, not, Option, none, some, List, [], ◌∷◌, ◌++◌, map,
  arith, ◌==◌, if◌then◌else◌, keep_if, member, Bool-cases, ==_iff, inl, inr,
}
use native.Mathlib.Nat.{zero-add}
use ebdental_api.Catalog.{Money, BundleRow, Choice, Bundle, Catalog, row_of_choice}
use ebdental_api.Bundles.{
  add_rows, combined_contents_price, claimed_products, set_contents, bundle_old_price,
}

-- How many of the listed rows are of product `p`.
abbrev pub count : ℕ → List BundleRow → ℕ
count p [] = 0
count p (r ∷ rs) = (if r.product_id == p then 1 else 0) + count p rs

count-append : (p : ℕ) (xs ys : List BundleRow) → count p (xs ++ ys) ≡ count p xs + count p ys
count-append p [] ys = omega arith
count-append p (x ∷ xs) ys = omega (arith, count-append p xs ys)

count-keep_if :
    (p : ℕ) (claimed : List ℕ) (rows : List BundleRow)
    → count p (keep_if (λ (r : BundleRow). not (member r.product_id claimed)) rows)
      ≡ (if member p claimed then 0 else count p rows)
count-keep_if p claimed [] = ground arith
count-keep_if p claimed (r ∷ rs) = elim (Bool-cases (r.product_id == p)) [
  | inl e ↦ ground (
    arith,
    count-keep_if p claimed rs,
    ap (λ (k : ℕ). member k claimed) ((==_iff r.product_id p).0 e),
  )
  | inr e ↦ ground (arith, count-keep_if p claimed rs)
]

-- In a configured set a product that some slot's default names counts only as often as it was
-- chosen, and never again as a fixed item; every other product keeps its fixed items besides.
pub count-set_contents :
    (s : Bundle) (chosen : List Choice) (p : ℕ)
    → count p (set_contents s chosen)
      ≡ (if member p (claimed_products s.option_groups) then 0 else count p s.items)
        + count p (map row_of_choice chosen)
unfolding set_contents
count-set_contents s chosen p =
    rw count-append (rw (count-keep_if p (claimed_products s.option_groups) s.items) refl)

-- What the rows cost, added up from the other end; a missing product costs nothing.
abbrev pub cost : Catalog → List BundleRow → Money
cost cat [] = 0
cost cat (r ∷ rs) =
    (elim (cat.product r.product_id) [ none ↦ 0 | some p ↦ p.price * r.qty ]) + cost cat rs

add_rows-eq-cost :
    (cat : Catalog) (total : Money) (rows : List BundleRow)
    → add_rows cat total rows ≡ total + cost cat rows
unfolding add_rows
add_rows-eq-cost cat total [] = omega arith
add_rows-eq-cost cat total (r ∷ rs) = elim (Option-cases (cat.product r.product_id)) [
  | inl e ↦ rw (e) (omega (arith, add_rows-eq-cost cat total rs))
  | inr (p, e) ↦ rw (e) (omega (arith, add_rows-eq-cost cat (total + p.price * r.qty) rs))
]

cost-append :
    (cat : Catalog) (xs ys : List BundleRow) → cost cat (xs ++ ys) ≡ cost cat xs + cost cat ys
cost-append cat [] ys = omega arith
cost-append cat (x ∷ xs) ys = omega (arith, cost-append cat xs ys)

-- A bundle with contents is measured against what they cost bought separately, a missing product
-- costing nothing, whatever figure is stored.
pub bundle_old_price-eq-cost :
    (cat : Catalog) (stored : Option Money) (r : BundleRow) (rs : List BundleRow)
    → bundle_old_price cat stored (r ∷ rs) ≡ some (cost cat (r ∷ rs))
unfolding bundle_old_price combined_contents_price
bundle_old_price-eq-cost cat stored r rs =
    ap some (add_rows-eq-cost cat 0 (r ∷ rs) ∙ zero-add (cost cat (r ∷ rs)))
