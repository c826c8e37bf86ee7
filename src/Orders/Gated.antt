-- ===== src/Orders/Gated.antt =====
-- app/routers/orders.py: `_perm`, the gate that FastAPI runs before a handler of the staff's, and the edit
-- and the deletion behind it.
use ebdental_api.Prelude.{ℕ, ◌≡◌, refl, true, ◌||◌, Option, [], ◌∷◌, arith}
use ebdental_api.Http.{Result, ok, ◌>>=◌}
use ebdental_api.Catalog.{Catalog}
use ebdental_api.Accounts.{User, Accounts, Claims, Permission, require_any_permission}
use ebdental_api.Accounts.Access.{IsStaff, require_any_permission_iff}
use ebdental_api.Store.{Order, Store, Env}
use ebdental_api.Orders.{delete_order}
use ebdental_api.Orders.Update.{OrderUpdate, update_order}

-- `_perm = Depends(require_any_permission("price_listing", "admin"))`
abbrev pub perm : Accounts → Option Claims → Result User
perm = require_any_permission (Permission.price_listing ∷ Permission.admin ∷ [])

pub update_order_request :
    Catalog → Env → Accounts → Option Claims → ℕ → OrderUpdate → Store → Result (Order × Store)
update_order_request cat env db token i f s = do
  current_user ← perm db token
  update_order cat env i f current_user s

pub delete_order_request : Accounts → Option Claims → ℕ → Store → Result Store
delete_order_request db token i s = do current_user ← perm db token; delete_order i current_user s

module _ (db : Accounts) (token : Option Claims) (user : User) (staff : IsStaff db token user)
    (held : (user.price_listing || user.admin) ≡ true) where
  perm-passes : perm db token ≡ ok user
  perm-passes = (require_any_permission_iff _ db token user).1 (staff, ground arith)

  pub update_order_request_lem :
      (cat : Catalog) (env : Env) (i : ℕ) (f : OrderUpdate) (s : Store)
      → update_order_request cat env db token i f s ≡ update_order cat env i f user s
  unfolding update_order_request
  update_order_request_lem cat env i f s = rw perm-passes refl

  pub delete_order_request_lem :
      (i : ℕ) (s : Store) → delete_order_request db token i s ≡ delete_order i user s
  unfolding delete_order_request
  delete_order_request_lem i s = rw perm-passes refl
