-- ===== src/Organizations/Requests.antt =====
-- The routes of src/modules/organizations/organizations.controller.ts that take rights away.
use back_end.Database.Rows.{HasUniqueKeys}
use back_end.Database.Enums.{UserRole}
use back_end.Database.Orm.{Orm}
use back_end.Database.Entities.{Uuid, user_entity}
use back_end.World.{World}
use back_end.Organizations.Service.{RequestUser, update_user_role, revoke_user}
use back_end.Organizations.LastAdmin.{
  HasActiveAdmin, update_user_role-HasActiveAdmin, revoke_user-HasActiveAdmin,
}

pub data Request : Type 0 where
  update_role : Uuid → UserRole → Request
  revoke : Uuid → Request

module _ (orm : Orm) where
  -- The world that a request leaves.
  unfoldable pub serve : Request → RequestUser → World → World
  unfolding update_user_role revoke_user
  serve (update_role user_id role) caller w = (update_user_role orm user_id role caller w).1
  serve (revoke user_id) caller w = (revoke_user orm user_id caller w).1

  -- Changing the role of a member and revoking a member leave each organisation that has an active
  -- administrator with one, whether or not the request succeeds, where no two users have one id.
  pub serve-HasActiveAdmin :
      (r : Request) (caller : RequestUser) (any_org : Uuid) (w : World)
      → HasUniqueKeys w.users
      → HasActiveAdmin any_org w
      → HasActiveAdmin any_org (serve r caller w)
  unfolding serve
  serve-HasActiveAdmin (update_role user_id role) caller any_org w u h =
      update_user_role-HasActiveAdmin orm w user_id role caller any_org u h
  serve-HasActiveAdmin (revoke user_id) caller any_org w u h =
      revoke_user-HasActiveAdmin orm w user_id caller any_org u h
