-- ===== src/Bundles/Slots.antt =====
-- What resolve_set_options guarantees: an unconfigured set is its standard build at no upcharge,
-- and every selection that it accepts is honoured.
use ebdental_api.Prelude.{
  ℕ, ◌≡◌, refl, true, Option, none, some, List, [], ◌∷◌, arith, ◌==◌, ==_refl, All, any, find_if,
  lookup, Option-cases, inl, inr,
}
use ebdental_api.Prelude.Int.{ℤ, pos, ◌+ℤ◌}
use mathlib.Core.Path.{subst, sym}
use ebdental_api.Http.{ok, unknown_choice, >>=-eq-ok, or_raise-eq-ok, ok-injective}
use ebdental_api.Catalog.{Choice, OptionGroup, Bundle, Catalog}
use ebdental_api.Bundles.{
  default_choice, choice_price_delta, delta_against, check_groups, pick_choice, resolve_groups,
  resolve_set_options, add_choice,
}

-- The default choice of each group, for the groups that have one.
abbrev with_default : Option Choice → List Choice → List Choice
with_default none rest = rest
with_default (some c) rest = c ∷ rest

abbrev pub defaults : List OptionGroup → List Choice
defaults [] = []
defaults (g ∷ gs) = with_default (default_choice g) (defaults gs)

default-delta :
    (cat : Catalog) (g : OptionGroup) (c : Choice)
    → default_choice g ≡ some c
    → choice_price_delta cat c g ≡ pos 0
unfolding choice_price_delta
default-delta cat g c h = rw (h, delta_against) (rw ==_refl)

add_default :
    (cat : Catalog) (g : OptionGroup) (cs : List Choice)
    → add_choice cat g (default_choice g) (cs, pos 0) ≡ (with_default (default_choice g) cs, pos 0)
unfolding ◌+ℤ◌
add_default cat g cs = elim (Option-cases (default_choice g)) [
  | inl e ↦ rw e refl
  | inr (c, e) ↦ rw e (rw (default-delta cat g c e) refl)
]

resolve-nothing :
    (cat : Catalog) (gs : List OptionGroup) → resolve_groups cat [] gs ≡ ok (defaults gs, pos 0)
unfolding resolve_groups
resolve-nothing cat [] = refl
resolve-nothing cat (g ∷ gs) = rw (resolve-nothing cat gs) (ap_ok (add_default cat g (defaults gs)))
  where
    ap_ok : {p q : List Choice × ℤ} → p ≡ q → ok p ≡ ok q
    ap_ok e = cc

-- A set that is bought with no selection resolves to the default of each group that has choices, in
-- group order, and adds nothing to the set's price.
pub resolve_unconfigured :
    (cat : Catalog) (s : Bundle)
    → resolve_set_options cat s [] ≡ ok (defaults s.option_groups, pos 0)
unfolding resolve_set_options
resolve_unconfigured cat s = resolve-nothing cat s.option_groups

-- What a group's place in the result shows of the buyer's selection.
abbrev IsPick : OptionGroup → Option ℕ → Option Choice → Type 0
IsPick g none c = c ≡ default_choice g
IsPick g (some k) none = ⊥
IsPick g (some k) (some c) = (c.id ≡ k) × (any (λ (d : Choice). d.id == k) g.choices ≡ true)

-- The configuration, group by group: the selected choice where the buyer picked one, which is an
-- option of that group, and the default elsewhere; each adds its own upcharge.
pub data Configured (cat : Catalog) (sel : List (ℕ × ℕ))
    : List OptionGroup → List Choice → ℤ → Type 0 where
  none_left : Configured cat sel [] [] (pos 0)
  slot :
      (g : OptionGroup) (c : Choice) {gs : List OptionGroup} {cs : List Choice} {t : ℤ}
      → IsPick g (lookup g.id sel) (some c)
      → Configured cat sel gs cs t
      → Configured cat sel (g ∷ gs) (c ∷ cs) (choice_price_delta cat c g +ℤ t)
  no_choices :
      (g : OptionGroup) {gs : List OptionGroup} {cs : List Choice} {t : ℤ}
      → lookup g.id sel ≡ none
      → default_choice g ≡ none
      → Configured cat sel gs cs t
      → Configured cat sel (g ∷ gs) cs t

find_if-some :
    (k : ℕ) (cs : List Choice) {c : Choice}
    → find_if (λ (d : Choice). d.id == k) cs ≡ some c
    → (c.id ≡ k) × (any (λ (d : Choice). d.id == k) cs ≡ true)
find_if-some k [] h = cc
find_if-some k (d ∷ ds) {c} h = ground (arith, find_if-some k ds {c = c})

pick_choice-IsPick :
    (g : OptionGroup) (o : Option ℕ) {c : Option Choice} → pick_choice g o ≡ ok c → IsPick g o c
unfolding pick_choice
pick_choice-IsPick g none h = cc
pick_choice-IsPick g (some k) {c} h =
    let (d, found, e) = >>=-eq-ok _ (λ (c : Choice). ok (some c)) h in
    let here = find_if-some k g.choices (or_raise-eq-ok _ unknown_choice found) in
    subst (IsPick g (some k)) (ok-injective e) here

add_choice-Configured :
    (cat : Catalog) (sel : List (ℕ × ℕ)) (g : OptionGroup) {gs : List OptionGroup}
    (o : Option Choice) (rest : List Choice × ℤ)
    → IsPick g (lookup g.id sel) o
    → Configured cat sel gs rest.0 rest.1
    → Configured cat sel (g ∷ gs) (add_choice cat g o rest).0 (add_choice cat g o rest).1
add_choice-Configured cat sel g none rest p h = elim (Option-cases (lookup g.id sel)) [
  | inl e ↦ no_choices g e (sym (subst (λ l. IsPick g l none) e p)) h
  | inr (k, e) ↦ absurd (subst (λ l. IsPick g l none) e p)
]
add_choice-Configured cat sel g (some c) rest p h = slot g c p h

resolve-Configured :
    (cat : Catalog) (sel : List (ℕ × ℕ)) (gs : List OptionGroup) {r : List Choice × ℤ}
    → resolve_groups cat sel gs ≡ ok r
    → Configured cat sel gs r.0 r.1
unfolding resolve_groups
resolve-Configured cat sel [] {r} h =
    subst (λ (q : List Choice × ℤ). Configured cat sel [] q.0 q.1) (ok-injective h) none_left
resolve-Configured cat sel (g ∷ gs) {r} h =
    let (o, picked, rest_ok) = >>=-eq-ok (pick_choice g (lookup g.id sel)) _ h in
    let (q, resolved, e) = >>=-eq-ok (resolve_groups cat sel gs) _ rest_ok in
    subst (λ (q : List Choice × ℤ). Configured cat sel (g ∷ gs) q.0 q.1) (ok-injective e)
      (add_choice-Configured cat sel g o q (pick_choice-IsPick g (lookup g.id sel) picked)
        (resolve-Configured cat sel gs resolved))

-- Every selection names a group of the set.
abbrev pub AllKnown : List OptionGroup → List (ℕ × ℕ) → Type 0
AllKnown groups = All (λ (s : ℕ × ℕ). any (λ (g : OptionGroup). g.id == s.0) groups ≡ true)

check-AllKnown :
    (groups : List OptionGroup) (sel : List (ℕ × ℕ))
    → check_groups groups sel ≡ ok tt
    → AllKnown groups sel
unfolding check_groups
check-AllKnown groups [] h = tt
check-AllKnown groups ((k, c) ∷ rest) h = ground (arith, check-AllKnown groups rest)

-- A selection that resolve_set_options accepts is honoured: every group that it names belongs to the
-- set, and the result lists, in group order, the selected choice of each group where one was
-- selected, an option of that very group, and the default elsewhere, with the sum of their upcharges.
pub resolve_honours :
    (cat : Catalog) (s : Bundle) (sel : List (ℕ × ℕ)) {chosen : List Choice} {delta : ℤ}
    → resolve_set_options cat s sel ≡ ok (chosen, delta)
    → AllKnown s.option_groups sel × Configured cat sel s.option_groups chosen delta
unfolding resolve_set_options
resolve_honours cat s sel h =
    let (u, checked, rest) = >>=-eq-ok (check_groups s.option_groups sel) _ h in
    (check-AllKnown s.option_groups sel checked, resolve-Configured cat sel s.option_groups rest)
