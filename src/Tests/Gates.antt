-- ===== src/Tests/Gates.antt =====
-- Who passes.
use ebdental_api.Prelude.{◌≡◌, ◌↔◌, true, any, some, [], ◌∷◌}
use ebdental_api.Http.{ok}
use ebdental_api.Accounts.{
  Claims, user_token, customer_token, Permission, holds, require_any_permission,
  get_price_visibility, get_ordering_principal, as_customer,
}
use ebdental_api.Accounts.Access.{
  IsStaff, SeesPrices, require_any_permission_iff, get_price_visibility_iff,
}
use ebdental_api.Accounts.Ordering.{MayOrder, get_ordering_principal_iff}
use ebdental_api.Tests.Shop.{accounts, admin_user, shopper}

abbrev admin_token : Claims
admin_token = record { kind = user_token; sub = some 1 }

abbrev shop_token : Claims
shop_token = record { kind = customer_token; sub = some 1 }

require_any_permission_iff_example :
    (require_any_permission (Permission.price_listing ∷ []) accounts (some admin_token)
      ≡ ok admin_user)
    ↔ (IsStaff accounts (some admin_token) admin_user
        × (any (holds admin_user) (Permission.price_listing ∷ []) ≡ true))
require_any_permission_iff_example =
    require_any_permission_iff (Permission.price_listing ∷ []) accounts (some admin_token)
      admin_user

get_price_visibility_iff_example :
    (get_price_visibility accounts (some shop_token) ≡ true) ↔ SeesPrices accounts (some shop_token)
get_price_visibility_iff_example = get_price_visibility_iff accounts (some shop_token)

get_ordering_principal_iff_example :
    (get_ordering_principal accounts (some shop_token) ≡ ok (as_customer shopper))
    ↔ MayOrder accounts (some shop_token) (as_customer shopper)
get_ordering_principal_iff_example =
    get_ordering_principal_iff accounts (some shop_token) (as_customer shopper)
