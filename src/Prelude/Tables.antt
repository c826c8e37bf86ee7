-- ===== src/Prelude/Tables.antt =====
-- A database table: its rows by primary key, and the next key that its sequence gives. The list of
-- rows is in descending order of the key.
use Prim.Native.Nat.{ℕ, zero, suc, ◌+◌, ◌<◌}
use mathlib.Core.Path.{◌≡◌}
use mathlib.Core.Option.{Option, none, some}
use mathlib.Core.List.{List, [], ◌∷◌}
use ebdental_api.Prelude.Tests.{◌==◌, if◌then◌else◌}

pub record Table {ℓ} (A : Type ℓ) : Type ℓ where
  pub next : ℕ
  pub row : ℕ → Option A

module _ {ℓ} {A : Type ℓ} where
  abbrev pub update : ℕ → Option A → (ℕ → Option A) → ℕ → Option A
  update k v row i = if i == k then v else row i

  -- INSERT: the new key is `t.next`.
  abbrev pub insert_row : A → Table A → Table A
  insert_row a t = record { next = t.next + 1; row = update t.next (some a) t.row }

  abbrev pub set_row : ℕ → A → Table A → Table A
  set_row k a t = record { next = t.next; row = update k (some a) t.row }

  abbrev pub delete_row : ℕ → Table A → Table A
  delete_row k t = record { next = t.next; row = update k none t.row }

  abbrev pub with_row : ℕ → Option A → List (ℕ × A) → List (ℕ × A)
  with_row k none rest = rest
  with_row k (some a) rest = (k, a) ∷ rest

  abbrev pub rows_below : ℕ → (ℕ → Option A) → List (ℕ × A)
  rows_below zero row = []
  rows_below (suc n) row = with_row n (row n) (rows_below n row)

  -- SELECT ... ORDER BY id DESC
  abbrev pub rows : Table A → List (ℕ × A)
  rows t = rows_below t.next t.row

  -- No key is in use that the sequence is still to give.
  abbrev pub IsAllocated : Table A → Type ℓ
  IsAllocated t = (i : ℕ) (a : A) → t.row i ≡ some a → i < t.next
