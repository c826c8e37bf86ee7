-- ===== src/Snapshot/RoundTrip.antt =====
-- What the lines of a checkout are when they come back as those of an order.
use ebdental_api.Prelude.{
  ◌≡◌, ◌≢◌, refl, Option, none, some, List, [], ◌∷◌, map, Text, arith, ap, ◌∙◌,
}
use mathlib.Core.Path.{ap₂}
use ebdental_api.Prelude.Int.{ℤ}
use ebdental_api.Catalog.{Money}
use ebdental_api.Lines.{OrderItem, Line}
use ebdental_api.Store.{Env}
use ebdental_api.Snapshot.{
  line_json, snapshot_lines, build, restore_lines, str_or_none, snap_decimal,
}

-- What Python documents of `Decimal(str(x))`: it is `x`, and no number prints as nothing. What is printed
-- at one moment is read at a later one.
pub record ReadsBack (env later : Env) : Type 0 where
  pub decimal : (m : Money) → later.read_decimal (env.str_decimal m) ≡ m
  pub coordinate : (x : ℤ) → later.read_coordinate (env.str_coordinate x) ≡ x
  pub coordinate_nonempty : (x : ℤ) → env.str_coordinate x ≢ []

-- A line less the configuration of its set.
abbrev pub forget_options : OrderItem → OrderItem
forget_options item = record item { set_options = none }

abbrev pub forget_line_options : Line → Line
forget_line_options l = record {
  parent = forget_options l.parent;
  components = map forget_options l.components;
}

module _ (env later : Env) (law : ReadsBack env later) where
  build-line_json : (item : OrderItem) → build later (line_json env item) ≡ forget_options item
  unfolding build line_json
  build-line_json item = ground (
    arith,
    law.decimal item.unit_price,
    law.decimal item.list_price,
    law.decimal item.discount,
    law.decimal item.line_amount,
  )

  build-components :
      (cs : List OrderItem) → map (build later) (map (line_json env) cs) ≡ map forget_options cs
  build-components [] = refl
  build-components (c ∷ cs) =
      ap₂ (λ x (l : List OrderItem). x ∷ l) (build-line_json c) (build-components cs)

  -- An order that is written from a checkout's snapshot has the checkout's lines, each charged line
  -- and each free one in its place with every figure unchanged, except that no line keeps the
  -- configuration of its set. Decimal is to read back what str printed.
  pub restore-snapshot :
      (ls : List Line) → restore_lines later (snapshot_lines env ls) ≡ map forget_line_options ls
  unfolding restore_lines snapshot_lines
  restore-snapshot [] = refl
  restore-snapshot (l ∷ ls) =
      ap₂ (λ (x : Line) (k : List Line). x ∷ k)
        (λ i. record {
          parent = build-line_json l.parent i;
          components = build-components l.components i;
        })
        (restore-snapshot ls)

  -- A coordinate that a checkout stored as a string, or none, comes back as it was, where Decimal reads
  -- back what str printed and no number prints as the empty string.
  pub snap_decimal-str : (o : Option ℤ) → snap_decimal later (str_or_none env o) ≡ o
  unfolding str_or_none
  snap_decimal-str none = unfold snap_decimal in refl
  snap_decimal-str (some x) =
      nonempty (env.str_coordinate x) (law.coordinate_nonempty x) ∙ ap some (law.coordinate x)
    where
      nonempty : (t : Text) → t ≢ [] → snap_decimal later (some t) ≡ some (later.read_coordinate t)
      nonempty [] h = absurd (h refl)
      nonempty (c ∷ t) h = unfold snap_decimal in refl
