-- ===== src/Snapshot/Keys.antt =====
-- app/models.py::OrderItem: what the database asks of an order's lines, of their foreign keys and of the
-- ranges of their columns, and the same of the rows that a snapshot holds. A product, a promotion or a
-- set can be deleted while a checkout is parked.
use ebdental_api.Prelude.{
  ℕ, ◌≡◌, refl, Bool, true, ◌&&◌, Option, none, some, List, [], ◌∷◌, map, is_some,
}
use ebdental_api.Catalog.{Catalog}
use ebdental_api.Lines.{OrderItem, Line}
use ebdental_api.Store.{LineJson, RowJson, Env}
use ebdental_api.Snapshot.{build, restore_lines}
use mathlib.Core.Path.{ap₂}

-- A foreign key: NULL, or the key of a row of the table.
abbrev pub refers {ℓ} : {A : Type ℓ} → (ℕ → Option A) → Option ℕ → Bool
refers table none = true
refers table (some k) = is_some (table k)

abbrev pub keys_refer : Catalog → Option ℕ → Option ℕ → Option ℕ → Bool
keys_refer cat product_id promotion_id set_id =
    refers cat.product product_id && refers cat.promotion promotion_id && refers cat.bundle set_id

items_fit : Env → Catalog → List OrderItem → Bool
items_fit env cat [] = true
items_fit env cat (x ∷ xs) =
    (keys_refer cat x.product_id x.promotion_id x.set_id && env.fits_columns x)
    && items_fit env cat xs

-- Every row that a list of lines is saved as.
unfoldable pub lines_fit : Env → Catalog → List Line → Bool
unfolding items_fit
lines_fit env cat [] = true
lines_fit env cat (l ∷ ls) = items_fit env cat (l.parent ∷ l.components) && lines_fit env cat ls

-- Whether each of these lines of a snapshot names rows of the catalogue that are still there, and has
-- values that its columns hold.
are_writable : Env → List LineJson → Bool
unfolding build
are_writable env [] = true
are_writable env (x ∷ xs) =
    (keys_refer env.catalog x.product_id x.promotion_id x.set_id && env.fits_columns (build env x))
    && are_writable env xs

unfoldable pub is_writable : Env → List RowJson → Bool
unfolding are_writable
is_writable env [] = true
is_writable env (row ∷ rows) = are_writable env (row.line ∷ row.components) && is_writable env rows

items_fit-build :
    (env : Env) (xs : List LineJson)
    → items_fit env env.catalog (map (build env) xs) ≡ are_writable env xs
unfolding items_fit are_writable build
items_fit-build env [] = refl
items_fit-build env (x ∷ xs) = ap₂ (λ a b. a && b) refl (items_fit-build env xs)

pub lines_fit-restore :
    (env : Env) (rows : List RowJson)
    → lines_fit env env.catalog (restore_lines env rows) ≡ is_writable env rows
unfolding lines_fit restore_lines is_writable items_fit are_writable build
lines_fit-restore env [] = refl
lines_fit-restore env (row ∷ rows) =
    ap₂ (λ a b. a && b) (ap₂ (λ a b. a && b) refl (items_fit-build env row.components))
      (lines_fit-restore env rows)
