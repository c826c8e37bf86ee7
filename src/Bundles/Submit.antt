-- ===== src/Bundles/Submit.antt =====
-- app/core/bundles.py: build_bundle_rows and build_option_groups, which validate what the client
-- submitted before anything is saved.
use ebdental_api.Prelude.{
  ℕ, ◌+◌, ◌≡◌, ◌↔◌, refl, Bool, true, false, not, ◌&&◌, ◌||◌, Option, none, some, List, [], ◌∷◌,
  arith, ◌==◌, if◌then◌else◌, is_some, member, not-eq-false, length, ◌<◌, All, Text,
}
use mathlib.Core.Path.{subst}
use ebdental_api.Prelude.Int.{ℤ}
use ebdental_api.Http.{
  Result, ok, err, option_group_empty, choice_listed_twice, product_listed_twice, no_such_product,
  free_with_itself, raise_if, ◌>>=◌, ◌>>◌, >>=-eq-ok, raise_if-eq-ok, ok-injective,
}
use ebdental_api.Catalog.{Catalog}

-- BundleItemIn: product_id and qty.
abbrev pub Item : Type 0
Item = ℕ × ℕ

abbrev pub is_excluded : Option ℕ → ℕ → Bool
is_excluded none p = false
is_excluded (some x) p = p == x

-- The loop of build_bundle_rows, over the products seen so far.
build_from : Catalog → Option ℕ → List ℕ → List Item → Result (List Item)
build_from cat exclude seen [] = ok []
build_from cat exclude seen ((p, qty) ∷ items) = do
  raise_if (member p seen) (product_listed_twice p)
  raise_if (is_excluded exclude p) free_with_itself
  raise_if (not (is_some (cat.product p))) (no_such_product p)
  rows ← build_from cat exclude (p ∷ seen) items
  ok ((p, qty) ∷ rows)

pub build_bundle_rows : Catalog → Option ℕ → List Item → Result (List Item)
unfolding build_from
build_bundle_rows cat exclude items = build_from cat exclude [] items

-- No guard of the loop is met.
abbrev pub IsSound : Catalog → Option ℕ → List ℕ → List Item → Type 0
IsSound cat exclude seen [] = Unit
IsSound cat exclude seen ((p, qty) ∷ items) =
    (member p seen ≡ false)
    × (is_excluded exclude p ≡ false)
    × (is_some (cat.product p) ≡ true)
    × IsSound cat exclude (p ∷ seen) items

build_from-IsSound :
    (cat : Catalog) (exclude : Option ℕ) (seen : List ℕ) (items : List Item)
    → IsSound cat exclude seen items
    → build_from cat exclude seen items ≡ ok items
unfolding build_from
build_from-IsSound cat exclude seen [] h = refl
build_from-IsSound cat exclude seen ((p, qty) ∷ items) h =
    rw (h.0, h.1, h.2) (rw (build_from-IsSound cat exclude (p ∷ seen) items h.3) refl)

build_from-accepted :
    (cat : Catalog) (exclude : Option ℕ) (seen : List ℕ) (items : List Item) {rows : List Item}
    → build_from cat exclude seen items ≡ ok rows
    → IsSound cat exclude seen items
unfolding build_from
build_from-accepted cat exclude seen [] h = tt
build_from-accepted cat exclude seen ((p, qty) ∷ items) h =
    let (_, a, h1) = >>=-eq-ok (raise_if (member p seen) (product_listed_twice p)) _ h in
    let (_, b, h2) = >>=-eq-ok (raise_if (is_excluded exclude p) free_with_itself) _ h1 in
    let (_, c, h3) =
      >>=-eq-ok (raise_if (not (is_some (cat.product p))) (no_such_product p)) _ h2 in
    let (_, rest, _) = >>=-eq-ok (build_from cat exclude (p ∷ seen) items) _ h3 in
    (
      raise_if-eq-ok _ _ a,
      raise_if-eq-ok _ _ b,
      not-eq-false _ (raise_if-eq-ok _ _ c),
      build_from-accepted cat exclude (p ∷ seen) items rest,
    )

-- A list that goes through meets no guard of the loop.
pub build_bundle_rows-IsSound :
    (cat : Catalog) (exclude : Option ℕ) (items : List Item) {rows : List Item}
    → build_bundle_rows cat exclude items ≡ ok rows
    → IsSound cat exclude [] items
unfolding build_bundle_rows
build_bundle_rows-IsSound cat exclude items h = build_from-accepted cat exclude [] items h

-- The loop hands back the submitted list exactly when no guard of it is met.
pub build_bundle_rows_iff :
    (cat : Catalog) (exclude : Option ℕ) (items : List Item)
    → (build_bundle_rows cat exclude items ≡ ok items) ↔ IsSound cat exclude [] items
unfolding build_bundle_rows
build_bundle_rows_iff cat exclude items =
    (build_from-accepted cat exclude [] items, build_from-IsSound cat exclude [] items)

-- SetOptionChoiceIn, and the choice row that build_option_groups makes of it.
pub record ChoiceIn : Type 0 where
  pub product_id : ℕ
  pub qty : ℕ
  pub price_delta : Option ℤ
  pub is_default : Bool

pub record GroupIn : Type 0 where
  pub name : Text
  pub choices : List ChoiceIn

pub record ChoiceRow : Type 0 where
  pub product_id : ℕ
  pub qty : ℕ
  pub price_delta : Option ℤ
  pub is_default : Bool
  pub sort_order : ℕ

pub record GroupRow : Type 0 where
  pub name : Text
  pub sort_order : ℕ
  pub choices : List ChoiceRow

-- The inner loop, over `seen`, `default_seen` and the index; it answers `default_seen` too.
build_choices : Catalog → List ℕ → Bool → ℕ → List ChoiceIn → Result (List ChoiceRow × Bool)
build_choices cat seen default_seen index [] = ok ([], default_seen)
build_choices cat seen default_seen index (c ∷ cs) = do
  raise_if (member c.product_id seen) (choice_listed_twice c.product_id)
  raise_if (not (is_some (cat.product c.product_id))) (no_such_product c.product_id)
  let is_default = c.is_default && not default_seen
  rest ← build_choices cat (c.product_id ∷ seen) (default_seen || is_default) (index + 1) cs
  ok (
    record {
      product_id = c.product_id;
      qty = c.qty;
      price_delta = c.price_delta;
      is_default = is_default;
      sort_order = index;
    }
        ∷ rest.0,
    rest.1,
  )

-- `if not default_seen: choice_rows[0].is_default = True`
flag_first : List ChoiceRow × Bool → List ChoiceRow
flag_first (rows, true) = rows
flag_first ([], false) = []
flag_first (r ∷ rows, false) = record r { is_default = true } ∷ rows

build_group : Catalog → ℕ → GroupIn → List ChoiceIn → Result GroupRow
unfolding build_choices flag_first
build_group cat position g [] = err option_group_empty
build_group cat position g (c ∷ cs) = do
  built ← build_choices cat [] false 0 (c ∷ cs)
  ok (record { name = g.name; sort_order = position; choices = flag_first built })

build_groups : Catalog → ℕ → List GroupIn → Result (List GroupRow)
unfolding build_group
build_groups cat position [] = ok []
build_groups cat position (g ∷ gs) = do
  row ← build_group cat position g g.choices
  rows ← build_groups cat (position + 1) gs
  ok (row ∷ rows)

unfoldable pub build_option_groups : Catalog → List GroupIn → Result (List GroupRow)
unfolding build_groups
build_option_groups cat groups = build_groups cat 0 groups

-- How many of the rows are flagged as the default.
abbrev pub default_count : List ChoiceRow → ℕ
default_count [] = 0
default_count (r ∷ rs) = (if r.is_default then 1 else 0) + default_count rs

abbrev one_if : Bool → ℕ
one_if b = if b then 1 else 0

build_choices-default_count :
    (cat : Catalog) (seen : List ℕ) (d : Bool) (i : ℕ) (cs : List ChoiceIn)
    {r : List ChoiceRow × Bool}
    → build_choices cat seen d i cs ≡ ok r
    → (default_count r.0 + one_if d ≡ one_if r.1) × (length r.0 ≡ length cs)
unfolding build_choices
build_choices-default_count cat seen d i [] {r} h =
    subst
      (λ (q : List ChoiceRow × Bool).
        (default_count q.0 + one_if d ≡ one_if q.1) × (length q.0 ≡ 0))
      (ok-injective h) (ground arith, refl)
build_choices-default_count cat seen d i (c ∷ cs) {r} h =
    let (_, _, h1) = >>=-eq-ok (raise_if (member c.product_id seen) _) _ h in
    let (_, _, h2) = >>=-eq-ok (raise_if (not (is_some (cat.product c.product_id))) _) _ h1 in
    let (q, built, e) =
      >>=-eq-ok (build_choices cat (c.product_id ∷ seen) (d || (c.is_default && not d)) (i + 1) cs)
        _ h2 in
    let (counts, lengths) =
      build_choices-default_count cat (c.product_id ∷ seen) (d || (c.is_default && not d)) (i + 1)
        cs built in
    subst
      (λ (q : List ChoiceRow × Bool).
        (default_count q.0 + one_if d ≡ one_if q.1) × (length q.0 ≡ length (c ∷ cs)))
      (ok-injective e) (ground arith, ground arith)

flag_first-default_count :
    (r : List ChoiceRow × Bool)
    → default_count r.0 ≡ one_if r.1
    → 0 < length r.0
    → default_count (flag_first r) ≡ 1
unfolding flag_first
flag_first-default_count (rows, true) h k = h
flag_first-default_count ([], false) h k = absurd (omega arith)
flag_first-default_count (r ∷ rows, false) h k = ground arith

build_group-default :
    (cat : Catalog) (i : ℕ) (g : GroupIn) (cs : List ChoiceIn) {row : GroupRow}
    → build_group cat i g cs ≡ ok row
    → default_count row.choices ≡ 1
unfolding build_group
build_group-default cat i g [] h = cc
build_group-default cat i g (c ∷ cs) h =
    let (q, built, e) = >>=-eq-ok (build_choices cat [] false 0 (c ∷ cs)) _ h in
    let (counts, lengths) = build_choices-default_count cat [] false 0 (c ∷ cs) built in
    subst (λ (row : GroupRow). default_count row.choices ≡ 1) (ok-injective e)
      (flag_first-default_count q (omega arith) (omega arith))

build_groups-default :
    (cat : Catalog) (i : ℕ) (gs : List GroupIn) {rows : List GroupRow}
    → build_groups cat i gs ≡ ok rows
    → All (λ (row : GroupRow). default_count row.choices ≡ 1) rows
unfolding build_groups
build_groups-default cat i [] h =
    subst (All (λ (row : GroupRow). default_count row.choices ≡ 1)) (ok-injective h) tt
build_groups-default cat i (g ∷ gs) h =
    let (row, built, h1) = >>=-eq-ok (build_group cat i g g.choices) _ h in
    let (rows, rest, e) = >>=-eq-ok (build_groups cat (i + 1) gs) _ h1 in
    subst (All (λ (row : GroupRow). default_count row.choices ≡ 1)) (ok-injective e)
      (build_group-default cat i g g.choices built, build_groups-default cat (i + 1) gs rest)

-- Whatever flags the client sent, every option group that is accepted has exactly one default.
pub build_option_groups-one_default :
    (cat : Catalog) (groups : List GroupIn) {rows : List GroupRow}
    → build_option_groups cat groups ≡ ok rows
    → All (λ (row : GroupRow). default_count row.choices ≡ 1) rows
unfolding build_option_groups
build_option_groups-one_default cat groups h = build_groups-default cat 0 groups h
