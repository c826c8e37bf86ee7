-- ===== src/Lines/Kinds.antt =====
-- Which ids a priced line carries: those of the branch that priced it.
use mathlib.Core.Path.{subst}
use ebdental_api.Prelude.{ℕ, ◌≡◌, refl, true, false, Option, none, some, List, is_some}
use ebdental_api.Http.{
  ok, ok-injective, or_raise, >>=-eq-ok, guard-eq-ok, no_such_product, not_sold_alone,
  no_such_promotion, promotion_inactive, no_such_set,
}
use ebdental_api.Catalog.{Catalog}
use ebdental_api.Bundles.{resolve_set_options}
use ebdental_api.Lines.{
  OrderItemCreate, Line, is_discountable, product_line, promotion_line, set_line, pick_line,
  build_line, find_bundle,
}

set_line-kind :
    (cat : Catalog) (o : Option _) (n : ℕ) (sel : List (ℕ × ℕ)) {l : Line}
    → set_line cat o n sel ≡ ok l
    → false ≡ is_discountable l.parent
unfolding set_line
set_line-kind cat o n sel h =
    let (s, _, h1) = >>=-eq-ok (or_raise o no_such_set) _ h in
    let (r, _, e) = >>=-eq-ok (resolve_set_options cat s sel) _ h1 in
    subst (λ (l : Line). false ≡ is_discountable l.parent) (ok-injective e) refl

pick_line-kind :
    (cat : Catalog) (now : ℕ) (o q : Option ℕ) (line : OrderItemCreate) {l : Line}
    → pick_line cat now o q line ≡ ok l
    → is_some o ≡ is_discountable l.parent
unfolding pick_line product_line promotion_line
pick_line-kind cat now (some k) q line h =
    let (p, _, h1) = >>=-eq-ok (or_raise (cat.product k) (no_such_product k)) _ h in
    let (_, e) = guard-eq-ok not_sold_alone h1 in
    subst (λ (l : Line). true ≡ is_discountable l.parent) (ok-injective e) refl
pick_line-kind cat now none (some k) line h =
    let (p, _, h1) = >>=-eq-ok (or_raise (cat.promotion k) no_such_promotion) _ h in
    let (_, e) = guard-eq-ok promotion_inactive h1 in
    subst (λ (l : Line). false ≡ is_discountable l.parent) (ok-injective e) refl
pick_line-kind cat now none none line h =
    set_line-kind cat (find_bundle cat line.set_id) line.qty line.options h

-- The line of a product, and no other, carries neither a promotion's id nor a set's.
pub build_line-kind :
    (cat : Catalog) (now : ℕ) (line : OrderItemCreate) {l : Line}
    → build_line cat now line ≡ ok l
    → is_some line.product_id ≡ is_discountable l.parent
unfolding build_line
build_line-kind cat now line h = pick_line-kind cat now line.product_id line.promotion_id line h
