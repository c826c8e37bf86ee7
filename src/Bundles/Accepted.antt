-- ===== src/Bundles/Accepted.antt =====
-- Exactly which contents lists build_bundle_rows lets through, and what it makes of them.
use ebdental_api.Prelude.{
  ℕ, ◌≡◌, ◌≢◌, ◌↔◌, refl, true, false, Option, none, some, List, [], ◌∷◌, arith, ◌==◌, ==_iff,
  ==_refl, is_some, member, All, Distinct, Bool-cases, some-inj, inl, inr, ap, sym, ◌∙◌,
}
use ebdental_api.Http.{ok, ok-injective}
use ebdental_api.Catalog.{Catalog}
use ebdental_api.Bundles.Submit.{
  Item, IsSound, is_excluded, build_bundle_rows, build_bundle_rows-IsSound, build_bundle_rows_iff,
}

-- The product ids of a submitted list.
abbrev pub products : List Item → List ℕ
products [] = []
products ((p, qty) ∷ items) = p ∷ products items

-- A product that has been seen is not listed again.
IsSound-member :
    (cat : Catalog) (exclude : Option ℕ) (p : ℕ) (seen : List ℕ) (items : List Item)
    → member p seen ≡ true
    → IsSound cat exclude seen items
    → member p (products items) ≡ false
IsSound-member cat exclude p seen [] m h = refl
IsSound-member cat exclude p seen ((q, qty) ∷ items) m h =
    let rest = IsSound-member cat exclude p (q ∷ seen) items (ground arith) h.3 in
    elim (Bool-cases (p == q)) [
      | inl e ↦ ground (arith, ap (λ (k : ℕ). member k seen) ((==_iff p q).0 e))
      | inr e ↦ ground arith
    ]

pub IsSound-Distinct :
    (cat : Catalog) (exclude : Option ℕ) (seen : List ℕ) (items : List Item)
    → IsSound cat exclude seen items
    → Distinct (products items)
IsSound-Distinct cat exclude seen [] h = tt
IsSound-Distinct cat exclude seen ((p, qty) ∷ items) h = (
  IsSound-member cat exclude p (p ∷ seen) items (ground arith) h.3,
  IsSound-Distinct cat exclude (p ∷ seen) items h.3,
)

-- One row of an acceptable list: a known product, and not the one that owns the list.
abbrev pub IsMember : Catalog → Option ℕ → Item → Type 0
IsMember cat exclude item = (cat.product item.0 ≢ none) × (exclude ≢ some item.0)

-- An acceptable list: every row is, and no product is listed twice.
pub record IsContents (cat : Catalog) (exclude : Option ℕ) (items : List Item) : Type 0 where
  pub distinct : Distinct (products items)
  pub members : All (IsMember cat exclude) items

known-some : {A : Type 0} (o : Option A) → o ≢ none → is_some o ≡ true
known-some none h = absurd (h refl)
known-some (some a) h = refl

excluded_iff : (x : Option ℕ) (p : ℕ) → (is_excluded x p ≡ false) ↔ (x ≢ some p)
excluded_iff none p = (λ _ e. cc, λ _. refl)
excluded_iff (some x) p = (
  λ h e. cc (h, ==_refl p, ap (λ y. p == y) (some-inj e)),
  λ h. elim (Bool-cases (p == x)) [
    | inl e ↦ absurd (h (ap some (sym ((==_iff p x).0 e))))
    | inr e ↦ e
  ],
)

IsSound-members :
    (cat : Catalog) (exclude : Option ℕ) (seen : List ℕ) (items : List Item)
    → IsSound cat exclude seen items
    → All (IsMember cat exclude) items
IsSound-members cat exclude seen [] h = tt
IsSound-members cat exclude seen ((p, qty) ∷ items) h = (
  (λ e. cc (h.2, ap (λ o. is_some o) e), (excluded_iff exclude p).0 h.1),
  IsSound-members cat exclude (p ∷ seen) items h.3,
)

-- None of the products listed has been seen.
abbrev AllNew : List ℕ → List Item → Type 0
AllNew seen items = All (λ (x : Item). member x.0 seen ≡ false) items

AllNew-cons :
    (p : ℕ) (seen : List ℕ) (items : List Item)
    → member p (products items) ≡ false
    → AllNew seen items
    → AllNew (p ∷ seen) items
AllNew-cons p seen [] h new = tt
AllNew-cons p seen ((q, qty) ∷ items) h new =
    (ground (arith, new.0), AllNew-cons p seen items (ground arith) new.1)

AllNew-none : (items : List Item) → AllNew [] items
AllNew-none [] = tt
AllNew-none (x ∷ items) = (refl, AllNew-none items)

contents-IsSound :
    (cat : Catalog) (exclude : Option ℕ) (seen : List ℕ) (items : List Item)
    → Distinct (products items)
    → All (IsMember cat exclude) items
    → AllNew seen items
    → IsSound cat exclude seen items
contents-IsSound cat exclude seen [] d m new = tt
contents-IsSound cat exclude seen ((p, qty) ∷ items) d m new = (
  new.0,
  (excluded_iff exclude p).1 m.0.1,
  known-some (cat.product p) m.0.0,
  contents-IsSound cat exclude (p ∷ seen) items d.1 m.1 (AllNew-cons p seen items d.0 new.1),
)

-- A contents list goes through exactly when it names known products, none of them twice and none of
-- them the product that owns it, and what comes out is then the submitted list itself: every product
-- with its quantity, in its order, none left out. Any other list is refused.
pub build_bundle_rows-accepts :
    (cat : Catalog) (exclude : Option ℕ) (items rows : List Item)
    → (build_bundle_rows cat exclude items ≡ ok rows)
      ↔ (IsContents cat exclude items × (rows ≡ items))
build_bundle_rows-accepts cat exclude items rows = (
  λ h.
      let sound = build_bundle_rows-IsSound cat exclude items h in
      (
        record {
          distinct = IsSound-Distinct cat exclude [] items sound;
          members = IsSound-members cat exclude [] items sound;
        },
        ok-injective (sym h ∙ (build_bundle_rows_iff cat exclude items).1 sound),
      ),
  λ (h, same).
      (build_bundle_rows_iff cat exclude items).1
        (contents-IsSound cat exclude [] items h.distinct h.members (AllNew-none items))
      ∙ ap ok (sym same),
)
