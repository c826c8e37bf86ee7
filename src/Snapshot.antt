-- ===== src/Snapshot.antt =====
-- app/routers/orders.py: freezing priced lines into the JSON of a pending checkout and back
-- (_snapshot_lines, _restore_lines, _snap_decimal). _SNAPSHOT_LINE_FIELDS is the fields of
-- `LineJson`; _DECIMAL_LINE_FIELDS is those of type `Text` there that are amounts.
pub mod RoundTrip
pub mod Keys
use ebdental_api.Prelude.{Option, none, some, List, [], ◌∷◌, map, Text}
use ebdental_api.Prelude.Int.{ℤ}
use ebdental_api.Lines.{OrderItem, Line}
use ebdental_api.Store.{LineJson, RowJson, Env}

-- `{f: getattr(item, f) for f in _SNAPSHOT_LINE_FIELDS}`, each Decimal as its string.
line_json : Env → OrderItem → LineJson
line_json env item = record {
  product_id = item.product_id;
  promotion_id = item.promotion_id;
  set_id = item.set_id;
  product_name = item.product_name;
  product_code = item.product_code;
  uom = item.uom;
  unit_price = env.str_decimal item.unit_price;
  list_price = env.str_decimal item.list_price;
  discount_type = item.discount_type;
  discount = env.str_decimal item.discount;
  qty = item.qty;
  line_amount = env.str_decimal item.line_amount;
}

-- A component is nested under its parent and not listed again.
unfoldable pub snapshot_lines : Env → List Line → List RowJson
unfolding line_json
snapshot_lines env [] = []
snapshot_lines env (l ∷ ls) =
    record { line = line_json env l.parent; components = map (line_json env) l.components }
    ∷ snapshot_lines env ls

-- `build(row)`: a column that the row does not list keeps its default, NULL.
build : Env → LineJson → OrderItem
build env row = record {
  product_id = row.product_id;
  promotion_id = row.promotion_id;
  set_id = row.set_id;
  product_name = row.product_name;
  product_code = row.product_code;
  uom = row.uom;
  unit_price = env.read_decimal row.unit_price;
  list_price = env.read_decimal row.list_price;
  discount_type = row.discount_type;
  discount = env.read_decimal row.discount;
  qty = row.qty;
  line_amount = env.read_decimal row.line_amount;
  set_options = none;
}

unfoldable pub restore_lines : Env → List RowJson → List Line
unfolding build
restore_lines env [] = []
restore_lines env (row ∷ rest) =
    record { parent = build env row.line; components = map (build env) row.components }
    ∷ restore_lines env rest

-- `None if payload.latitude is None else str(payload.latitude)`
pub str_or_none : Env → Option ℤ → Option Text
str_or_none env none = none
str_or_none env (some x) = some (env.str_coordinate x)

-- A missing value and an empty string stand for no coordinate.
pub snap_decimal : Env → Option Text → Option ℤ
snap_decimal env none = none
snap_decimal env (some []) = none
snap_decimal env (some (c ∷ text)) = some (env.read_coordinate (c ∷ text))
