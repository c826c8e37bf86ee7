-- ===== src/Lines/Free.antt =====
-- The components of a line: free, and as many as the parent asks for.
use mathlib.Core.Path.{subst}
use ebdental_api.Prelude.{
  ℕ, ◌*◌, ◌≡◌, refl, Option, none, some, List, [], ◌∷◌, All, Option-cases, inl, inr,
}
use ebdental_api.Http.{
  ok, ok-injective, or_raise, >>=-eq-ok, guard-eq-ok, no_such_product, not_sold_alone,
  no_such_promotion, promotion_inactive, no_such_set,
}
use ebdental_api.Catalog.{BundleRow, Product, Catalog}
use ebdental_api.Bundles.{resolve_set_options}
use ebdental_api.Lines.{
  OrderItem, OrderItemCreate, Line, component, component_items, product_line, promotion_line,
  set_line, pick_line, build_line, find_bundle,
}

-- A component is a product line at no price at all.
pub record IsFree (item : OrderItem) : Type 0 where
  pub no_unit_price : item.unit_price ≡ 0
  pub no_list_price : item.list_price ≡ 0
  pub no_discount : item.discount ≡ 0
  pub no_amount : item.line_amount ≡ 0

component-IsFree : (p : Product) (n : ℕ) → IsFree (component p n)
unfolding component
component-IsFree p n = record {
  no_unit_price = refl;
  no_list_price = refl;
  no_discount = refl;
  no_amount = refl;
}

component_items-IsFree :
    (cat : Catalog) (rows : List BundleRow) (n : ℕ) → All IsFree (component_items cat rows n)
unfolding component_items
component_items-IsFree cat [] n = tt
component_items-IsFree cat (row ∷ rows) n = elim (Option-cases (cat.product row.product_id)) [
  | inl e ↦ rw (e, component_items, All) (component_items-IsFree cat rows n)
  | inr (p, e) ↦
      rw (e, component_items, All) (component-IsFree p _, component_items-IsFree cat rows n)
]

-- A priced line: its amount is its price times its quantity, and its components are free.
pub record IsPriced (l : Line) : Type 0 where
  pub amount : l.parent.line_amount ≡ l.parent.unit_price * l.parent.qty
  pub free : All IsFree l.components

product_line-IsPriced :
    (cat : Catalog) (k n : ℕ) {l : Line} → product_line cat k n ≡ ok l → IsPriced l
unfolding product_line
product_line-IsPriced cat k n h =
    let (p, _, h1) = >>=-eq-ok (or_raise (cat.product k) (no_such_product k)) _ h in
    let (_, e) = guard-eq-ok not_sold_alone h1 in
    subst IsPriced (ok-injective e)
      (record { amount = refl; free = component_items-IsFree cat p.free_items n })

promotion_line-IsPriced :
    (cat : Catalog) (now k n : ℕ) {l : Line} → promotion_line cat now k n ≡ ok l → IsPriced l
unfolding promotion_line
promotion_line-IsPriced cat now k n h =
    let (p, _, h1) = >>=-eq-ok (or_raise (cat.promotion k) no_such_promotion) _ h in
    let (_, e) = guard-eq-ok promotion_inactive h1 in
    subst IsPriced (ok-injective e)
      (record { amount = refl; free = component_items-IsFree cat p.items n })

set_line-IsPriced :
    (cat : Catalog) (o : Option _) (n : ℕ) (sel : List (ℕ × ℕ)) {l : Line}
    → set_line cat o n sel ≡ ok l
    → IsPriced l
unfolding set_line
set_line-IsPriced cat o n sel h =
    let (s, _, h1) = >>=-eq-ok (or_raise o no_such_set) _ h in
    let (r, _, e) = >>=-eq-ok (resolve_set_options cat s sel) _ h1 in
    subst IsPriced (ok-injective e)
      (record { amount = refl; free = component_items-IsFree cat _ n })

pick_line-IsPriced :
    (cat : Catalog) (now : ℕ) (o q : Option ℕ) (line : OrderItemCreate) {l : Line}
    → pick_line cat now o q line ≡ ok l
    → IsPriced l
unfolding pick_line
pick_line-IsPriced cat now (some k) q line h = product_line-IsPriced cat k line.qty h
pick_line-IsPriced cat now none (some k) line h = promotion_line-IsPriced cat now k line.qty h
pick_line-IsPriced cat now none none line h =
    set_line-IsPriced cat (find_bundle cat line.set_id) line.qty line.options h

pub build_line-IsPriced :
    (cat : Catalog) (now : ℕ) (line : OrderItemCreate) {l : Line}
    → build_line cat now line ≡ ok l
    → IsPriced l
unfolding build_line
build_line-IsPriced cat now line h =
    pick_line-IsPriced cat now line.product_id line.promotion_id line h
