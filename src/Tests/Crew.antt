-- ===== src/Tests/Crew.antt =====
-- A user manager who changes the own account.
use ebdental_api.Prelude.{
  true, false, Option, none, some, [], ◌≡◌, refl, arith, ◌==◌, if◌then◌else◌,
}
use ebdental_api.Http.{ok, err, account_deactivated, own_deactivation, own_user_management}
use ebdental_api.Accounts.{
  User, Claims, Permission, user_token, require_permission, get_current_user,
}
use ebdental_api.Products.Write.{sent}
use ebdental_api.Staff.{Staff, StaffRow, accounts_of, update_user, deactivate_user}
use ebdental_api.Staff.Managers.{
  IsKeyed, only_inactive, update_user-keeps_manager, update_user-locks_out, inactive_row, put_row,
}
use ebdental_api.Tests.Shop.{admin_user}

abbrev manager_token : Option Claims
manager_token = some record { kind = user_token; sub = some 1 }

abbrev manager_row : StaffRow
manager_row = record {
  user = admin_user;
  email = [];
  hashed_password = [];
  role_title = [];
  profile = record { address = none; phone_num = none; date_of_birth = none; gender = none };
  verification_token = none;
  updated_by_user_id = none;
}

abbrev crew : Staff
crew = record {
  staff = record { next = 2; row = λ k. if k == 1 then some manager_row else none };
  customers = λ k. none;
  mails = [];
}

crew-IsKeyed : IsKeyed crew
crew-IsKeyed k r h = ground arith

allowed :
    require_permission Permission.user_management (accounts_of crew) manager_token ≡ ok admin_user
unfolding require_permission
allowed = refl

abbrev after : Staff
after = put_row 1 (inactive_row admin_user manager_row) crew

update_accepted :
    update_user manager_token 1 only_inactive crew ≡ ok (inactive_row admin_user manager_row, after)
unfolding update_user require_permission
update_accepted = refl

update_user-keeps_manager_example :
    (caller : User) × (r : StaffRow) × (require_permission Permission.user_management
        (accounts_of crew)
        manager_token
      ≡ ok caller)
    × (after.staff.row caller.id ≡ some r)
    × (r.user.user_management ≡ true)
update_user-keeps_manager_example =
    update_user-keeps_manager manager_token 1 only_inactive crew after
      (inactive_row admin_user manager_row) crew-IsKeyed update_accepted

update_user-locks_out_example :
    (deactivate_user manager_token 1 crew ≡ err own_deactivation)
    × (row : StaffRow) × (s' : Staff) × (update_user manager_token 1 only_inactive crew
        ≡ ok (row, s'))
    × (get_current_user (accounts_of s') manager_token ≡ err account_deactivated)
update_user-locks_out_example =
    update_user-locks_out manager_token admin_user crew crew-IsKeyed allowed

own_management_stays :
    update_user manager_token 1 (record only_inactive { user_management = sent false }) crew
    ≡ err own_user_management
unfolding update_user require_permission
own_management_stays = refl
