-- ===== src/Lines/Amounts.antt =====
-- The totals of _build_order_lines are those of the lines that it builds, and the ones that
-- _persisted_totals reads back.
use ebdental_api.Prelude.{
  ℕ, ◌+◌, ◌≤◌, ◌≡◌, refl, List, [], ◌∷◌, ◌++◌, arith, if◌then◌else◌, is_some, All, All-append, ◌∙◌,
}
use mathlib.Core.Path.{subst}
use ebdental_api.Http.{ok, ok-injective, >>=-eq-ok}
use ebdental_api.Catalog.{Money, Catalog}
use ebdental_api.Lines.{
  OrderItem, OrderItemCreate, Line, Priced, flat, mark_components, is_discountable, add_line,
  build_line, build_from, build_order_lines, no_lines, persisted_totals, totals_from,
}
use ebdental_api.Lines.Kinds.{build_line-kind}
use ebdental_api.Lines.Free.{IsPriced, build_line-IsPriced}

-- What the paid lines come to, and the part of it that an order-level discount applies to.
abbrev pub amount_of : List Line → Money
amount_of [] = 0
amount_of (l ∷ ls) = l.parent.line_amount + amount_of ls

abbrev pub discountable_of : List Line → Money
discountable_of [] = 0
discountable_of (l ∷ ls) =
    (if is_discountable l.parent then l.parent.line_amount else 0) + discountable_of ls

amount_of-append : (xs ys : List Line) → amount_of (xs ++ ys) ≡ amount_of xs + amount_of ys
amount_of-append [] ys = omega arith
amount_of-append (x ∷ xs) ys = omega (arith, amount_of-append xs ys)

discountable_of-append :
    (xs ys : List Line) → discountable_of (xs ++ ys) ≡ discountable_of xs + discountable_of ys
discountable_of-append [] ys = omega arith
discountable_of-append (x ∷ xs) ys = omega (arith, discountable_of-append xs ys)

discountable-le-amount : (ls : List Line) → discountable_of ls ≤ amount_of ls
discountable-le-amount [] = omega arith
discountable-le-amount (l ∷ ls) = ground (arith, discountable-le-amount ls)

-- What holds of the running totals.
pub record IsTotalled (p : Priced) : Type 0 where
  pub lines_priced : All IsPriced p.items
  pub subtotal_sums : p.subtotal ≡ amount_of p.items
  pub discountable_sums : p.discountable_subtotal ≡ discountable_of p.items

add_line-IsTotalled :
    (p : Priced) (line : OrderItemCreate) (l : Line)
    → is_some line.product_id ≡ is_discountable l.parent
    → IsPriced l
    → IsTotalled p
    → IsTotalled (add_line p line l)
unfolding add_line
add_line-IsTotalled p line l kind priced h = record {
  lines_priced = All-append IsPriced p.items (l ∷ []) h.lines_priced (priced, tt);
  subtotal_sums = omega (arith, amount_of-append p.items (l ∷ []));
  discountable_sums = ground (arith, discountable_of-append p.items (l ∷ []));
}

build_from-IsTotalled :
    (cat : Catalog) (now : ℕ) (acc : Priced) (lines : List OrderItemCreate) {p : Priced}
    → build_from cat now acc lines ≡ ok p
    → IsTotalled acc
    → IsTotalled p
unfolding build_from
build_from-IsTotalled cat now acc [] e h = subst IsTotalled (ok-injective e) h
build_from-IsTotalled cat now acc (line ∷ lines) e h =
    let (l, built, rest) = >>=-eq-ok (build_line cat now line) _ e in
    build_from-IsTotalled cat now (add_line acc line l) lines rest (
      add_line-IsTotalled acc line l (build_line-kind cat now line built)
        (build_line-IsPriced cat now line built) h)

totals_from-mark :
    (acc : Money × Money) (cs : List OrderItem) (rest : List _)
    → totals_from acc (mark_components cs rest) ≡ totals_from acc rest
unfolding totals_from
totals_from-mark (a, b) [] rest = refl
totals_from-mark (a, b) (c ∷ cs) rest = totals_from-mark (a, b) cs rest

totals_from-flat :
    (a b : Money) (ls : List Line)
    → totals_from (a, b) (flat ls) ≡ (a + amount_of ls, b + discountable_of ls)
unfolding totals_from
totals_from-flat a b [] = ground arith
totals_from-flat a b (l ∷ ls) =
    totals_from-mark _ l.components (flat ls)
    ∙ totals_from-flat (a + l.parent.line_amount)
        (if is_discountable l.parent then b + l.parent.line_amount else b) ls
    ∙ ground arith

pub persisted_totals-eq-sums :
    (ls : List Line) → persisted_totals ls ≡ (amount_of ls, discountable_of ls)
unfolding persisted_totals
persisted_totals-eq-sums ls = totals_from-flat 0 0 ls ∙ ground arith

-- However a cart is made up, each line that is charged comes to its unit price times its quantity,
-- each line that the server adds under it is free, the subtotal is the sum of the charged lines, and
-- the base of the order-level discount is that sum over the product lines alone.
pub build_order_lines-IsTotalled :
    (cat : Catalog) (now : ℕ) (lines : List OrderItemCreate) {p : Priced}
    → build_order_lines cat now lines ≡ ok p
    → IsTotalled p
unfolding build_order_lines
build_order_lines-IsTotalled cat now lines e =
    build_from-IsTotalled cat now no_lines lines e
      (record { lines_priced = tt; subtotal_sums = refl; discountable_sums = refl })

-- The totals that are read back off saved lines, none of whose promotions and sets has been deleted,
-- are the ones that those lines were built with.
pub persisted_totals-build :
    (cat : Catalog) (now : ℕ) (lines : List OrderItemCreate) {p : Priced}
    → build_order_lines cat now lines ≡ ok p
    → persisted_totals p.items ≡ (p.subtotal, p.discountable_subtotal)
persisted_totals-build cat now lines {p} e =
    let h = build_order_lines-IsTotalled cat now lines e in
    persisted_totals-eq-sums p.items ∙ ground (arith, h.subtotal_sums, h.discountable_sums)

-- The base of the discount is part of the subtotal.
pub discountable-le-subtotal :
    (cat : Catalog) (now : ℕ) (lines : List OrderItemCreate) {p : Priced}
    → build_order_lines cat now lines ≡ ok p
    → p.discountable_subtotal ≤ p.subtotal
discountable-le-subtotal cat now lines {p} e =
    let h = build_order_lines-IsTotalled cat now lines e in
    omega (arith, h.subtotal_sums, h.discountable_sums, discountable-le-amount p.items)
