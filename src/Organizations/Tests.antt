-- ===== src/Organizations/Tests.antt =====
-- Runs of the organisation component on the database of World/Fixtures.antt: 10 and 11 administer
-- organisation 1, and 12 views it.
use back_end.Prelude.{◌≡◌, refl, true, false, some, arith}
use back_end.Database.Rows.{HasUniqueKeys, Contains}
use back_end.Database.InMemory.{in_memory}
use back_end.Database.Enums.{UserRole}
use back_end.Database.Entities.{User, RefreshToken, user_entity}
use back_end.World.Fixtures.{office}
use back_end.Organizations.Service.{RequestUser, revoke_user}
use back_end.Organizations.LastAdmin.{HasActiveAdmin}
use back_end.Organizations.Requests.{revoke, serve, serve-HasActiveAdmin}
use back_end.Organizations.Membership.{revoke_user-tokens}

abbrev ann : RequestUser
ann = record { id = 10; org_id = some 1; role = UserRole.admin }

distinct : HasUniqueKeys (office true).users
distinct k = ground arith

serve-HasActiveAdmin_example : HasActiveAdmin 1 (serve in_memory (revoke 11) ann (office true))
serve-HasActiveAdmin_example =
    serve-HasActiveAdmin in_memory (revoke 11) ann 1 (office true) distinct (omega arith)

revoke_user-tokens_example :
    ((u : User) × Contains u (revoke_user in_memory 11 ann (office true)).1.users
      × (u.id ≡ 11)
      × (u.is_active ≡ false))
    × ((t : RefreshToken)
        → Contains t (revoke_user in_memory 11 ann (office true)).1.refresh_tokens
        → t.user_id ≡ 11
        → t.revoked ≡ true)
unfolding revoke_user
revoke_user-tokens_example = revoke_user-tokens in_memory (office true) 11 ann refl
