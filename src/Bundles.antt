-- ===== src/Bundles.antt =====
-- app/core/bundles.py: what a bundle's contents cost and what a configured set comes to
-- (combined_contents_price, default_choice, choice_price_delta, resolve_set_options, set_contents,
-- bundle_old_price). The validation and saving of bundles are in the children Submit and Reconcile.
pub mod Slots
pub mod Contents
pub mod Submit
pub mod Accepted
pub mod Reconcile
use ebdental_api.Prelude.{
  ℕ, ◌+◌, ◌*◌, Bool, true, false, not, Option, none, some, List, [], ◌∷◌, ◌++◌, map, ◌==◌,
  if◌then◌else◌, any, keep_if, find_if, member, lookup,
}
use ebdental_api.Prelude.Int.{ℤ, pos, sub_ℕ, ◌+ℤ◌}
use ebdental_api.Http.{
  HttpError, Result, ok, err, unknown_option_group, unknown_choice, or_raise, ◌>>=◌, ◌>>◌,
}
use ebdental_api.Catalog.{
  Money, Product, BundleRow, Choice, OptionGroup, Bundle, Catalog, row_of_choice,
}

-- The loop of combined_contents_price; a row whose product is gone is skipped.
add_rows : Catalog → Money → List BundleRow → Money
add_rows cat total [] = total
add_rows cat total (row ∷ rows) =
    add_rows cat
      (elim (cat.product row.product_id) [ none ↦ total | some p ↦ total + p.price * row.qty ]) rows

pub combined_contents_price : Catalog → List BundleRow → Option Money
unfolding add_rows
combined_contents_price cat [] = none
combined_contents_price cat (row ∷ rows) = some (add_rows cat 0 (row ∷ rows))

abbrev first_choice : List Choice → Option Choice
first_choice [] = none
first_choice (c ∷ cs) = some c

-- The flagged default, or the first choice where none is flagged.
unfoldable pub default_choice : OptionGroup → Option Choice
default_choice g = elim (find_if (λ (c : Choice). c.is_default) g.choices) [
  | none ↦ first_choice g.choices
  | some c ↦ some c
]

-- `(choice.product.price * choice.qty) - (base.product.price * base.qty)`
derived_delta : Catalog → Choice → Choice → ℤ
derived_delta cat c base = elim (cat.product c.product_id) [
  | none ↦ pos 0
  | some p ↦ elim (cat.product base.product_id) [
    | none ↦ pos 0
    | some q ↦ sub_ℕ (p.price * c.qty) (q.price * base.qty)
  ]
]

delta_against : Catalog → Choice → Option Choice → ℤ
unfolding derived_delta
delta_against cat c none = pos 0
delta_against cat c (some base) =
    if c.id == base.id
    then pos 0
    else elim c.price_delta [ none ↦ derived_delta cat c base | some d ↦ d ]

unfoldable pub choice_price_delta : Catalog → Choice → OptionGroup → ℤ
unfolding delta_against default_choice
choice_price_delta cat c g = delta_against cat c (default_choice g)

-- The first loop of resolve_set_options: every selected group belongs to the set.
pub check_groups : List OptionGroup → List (ℕ × ℕ) → Result (Unit {0})
check_groups groups [] = ok tt
check_groups groups ((group_id, _) ∷ rest) =
    let others = check_groups groups rest in
    if any (λ (g : OptionGroup). g.id == group_id) groups then others else err unknown_option_group

-- Which choice one group ends up on; `ok none` for a group with no choices at all.
pick_choice : OptionGroup → Option ℕ → Result (Option Choice)
pick_choice g none = ok (default_choice g)
pick_choice g (some picked_id) = do
  c ← or_raise (find_if (λ (c : Choice). c.id == picked_id) g.choices) unknown_choice
  ok (some c)

abbrev add_choice : Catalog → OptionGroup → Option Choice → List Choice × ℤ → List Choice × ℤ
add_choice cat g none rest = rest
add_choice cat g (some c) (chosen, total) = (c ∷ chosen, choice_price_delta cat c g +ℤ total)

pub resolve_groups : Catalog → List (ℕ × ℕ) → List OptionGroup → Result (List Choice × ℤ)
unfolding pick_choice
resolve_groups cat selections [] = ok ([], pos 0)
resolve_groups cat selections (g ∷ gs) = do
  choice ← pick_choice g (lookup g.id selections)
  rest ← resolve_groups cat selections gs
  ok (add_choice cat g choice rest)

unfoldable pub resolve_set_options : Catalog → Bundle → List (ℕ × ℕ) → Result (List Choice × ℤ)
unfolding check_groups resolve_groups
resolve_set_options cat s selections = do
  check_groups s.option_groups selections
  resolve_groups cat selections s.option_groups

-- The products that a slot has taken over: each group claims the one that its default names.
pub claimed_products : List OptionGroup → List ℕ
claimed_products [] = []
claimed_products (g ∷ gs) = elim (default_choice g) [
  | none ↦ claimed_products gs
  | some base ↦ base.product_id ∷ claimed_products gs
]

unfoldable pub set_contents : Bundle → List Choice → List BundleRow
unfolding claimed_products
set_contents s chosen =
    keep_if (λ (item : BundleRow). not (member item.product_id (claimed_products s.option_groups)))
      s.items
    ++ map row_of_choice chosen

-- `contents` where given, else the bundle's own items; the stored column only for no contents.
pub bundle_old_price : Catalog → Option Money → List BundleRow → Option Money
bundle_old_price cat stored contents = elim (combined_contents_price cat contents) [
  | none ↦ stored
  | some total ↦ some total
]
