-- ===== src/Organizations/Service.antt =====
-- src/modules/organizations/organizations.service.ts. The random token, its hash, the lower-cased
-- address, the new id and the time are the runtime's, and arguments here.
use back_end.Prelude.{
  ℕ, String, Bool, true, false, not, Option, none, some, ◌==◌, ◌===◌, string_Eq, ◌&&◌, leb, ◌+◌,
  if◌then◌else◌, option_get,
}
use Prim.Native.String.{◌++◌}
use back_end.Database.Json.{Json, Fields}
use back_end.Database.Enums.{UserRole, user_role_Eq, user_role_text}
use back_end.Database.Orm.{Orm}
use back_end.Database.Entities.{Uuid, Instant, User, user_entity}
use back_end.World.{
  Action, ok, bad_request, not_found, forbidden, conflict, pure, throw_if, gets, modify, or_throw,
  when, ◌>>=◌, ◌>>◌,
}
use back_end.Messaging.Audit.{log, user_entry}

-- The caller; `none` is an organisation that is missing or empty.
pub record RequestUser : Type 0 where
  pub id : Uuid
  pub org_id : Option Uuid
  pub role : UserRole

-- `serializeUser`
pub record UserView : Type 0 where
  pub id : Uuid
  pub email : String
  pub role : UserRole
  pub org_id : Uuid
  pub is_active : Bool
  pub is_verified : Bool

abbrev pub serialize_user : User → UserView
serialize_user u = record {
  id = u.id;
  email = u.email;
  role = u.role;
  org_id = u.org_id;
  is_active = u.is_active;
  is_verified = u.is_verified;
}

-- What the runtime supplies to an invitation.
pub record Invitation : Type 0 where
  pub email : String
  pub token : String
  pub token_hash : String
  pub new_id : Uuid
  pub now : Instant
  -- whether NODE_ENV is 'production'
  pub production : Bool

-- What `inviteUser` answers.
pub record InviteResult : Type 0 where
  pub id : Uuid
  pub email : String
  pub role : UserRole
  pub org_id : Uuid
  pub invite_expires_at : Instant
  pub invite_token : Option String

abbrev pub invite_ttl_ms : ℕ
invite_ttl_ms = 604800000

abbrev two : String → Json → String → Json → Json
two k v l u = Json.object (Fields.field k v (Fields.field l u Fields.end))

abbrev role_json : UserRole → Json
role_json r = Json.text (user_role_text r)

-- `assertAdmin`, which also finds the caller's organisation.
unfoldable pub assert_admin : RequestUser → Action Uuid
assert_admin caller = do
  org_id ← or_throw caller.org_id (forbidden "Organization scope is required")
  throw_if (not (caller.role === UserRole.admin)) (forbidden "Admin role is required")
  pure org_id

-- The rows that `assertNotLastActiveAdmin` counts.
abbrev pub is_active_admin : Uuid → User → Bool
is_active_admin org_id u = u.org_id == org_id && u.role === UserRole.admin && u.is_active

abbrev pub is_member : Uuid → Uuid → User → Bool
is_member user_id org_id u = u.id == user_id && u.org_id == org_id

-- The row that an invitation adds.
abbrev pub invited : Invitation → Option UserRole → Uuid → User
invited i role org_id = record {
  id = i.new_id;
  email = i.email;
  password_hash = "pending-invite:" ++ i.token_hash;
  role = option_get role UserRole.viewer;
  org_id = org_id;
  is_verified = false;
  is_active = true;
  invite_token_hash = some i.token_hash;
  invite_expires_at = some (i.now + invite_ttl_ms);
}

module _ (orm : Orm) where
  save_user : User → Action User
  save_user u w = (ok u, record w { users = orm.save u w.users })

  unfoldable pub find_org_user_or_throw : Uuid → Uuid → Action User
  find_org_user_or_throw user_id org_id = do
    found ← gets (λ w. orm.find_one (is_member user_id org_id) w.users)
    or_throw found (not_found "User not found")

  unfoldable pub assert_not_last_active_admin : Uuid → Uuid → Action (Unit {0})
  assert_not_last_active_admin user_id org_id = do
    active_admin_count ← gets (λ w. orm.count (is_active_admin org_id) w.users)
    found ← gets (λ w. orm.find_one (is_member user_id org_id) w.users)
    throw_if
        (leb active_admin_count 1
          && elim found [ none ↦ false | some u ↦ u.role === UserRole.admin ])
        (bad_request "Cannot downgrade or revoke the last active admin")

  unfoldable pub invite_user : Invitation → Option UserRole → RequestUser → Action InviteResult
  unfolding assert_admin save_user log
  invite_user i role caller = do
    org_id ← assert_admin caller
    existing ← gets (λ w. orm.find_one (λ u. u.email === i.email) w.users)
    throw_if (elim existing [ none ↦ false | some _ ↦ true ]) (conflict "User already exists")
    saved ← save_user (invited i role org_id)
    log orm (
        user_entry none caller.id "ORG_USER_INVITED" none none (
          some (
            Json.object (
              Fields.field "user_id" (Json.uuid saved.id) (
                Fields.field "email" (Json.text saved.email) (
                  Fields.field "role" (role_json saved.role)
                    (Fields.field "org_id" (Json.uuid saved.org_id) Fields.end)))))))
    pure (record {
      id = saved.id;
      email = saved.email;
      role = saved.role;
      org_id = saved.org_id;
      invite_expires_at = i.now + invite_ttl_ms;
      invite_token = if i.production then none else some i.token;
    })

  unfoldable pub update_user_role : Uuid → UserRole → RequestUser → Action UserView
  unfolding assert_admin find_org_user_or_throw assert_not_last_active_admin save_user log
  update_user_role user_id role caller = do
    org_id ← assert_admin caller
    user ← find_org_user_or_throw user_id org_id
    if user.role === role then pure (serialize_user user) else (do
      when (user.role === UserRole.admin && not (role === UserRole.admin))
          (assert_not_last_active_admin user.id org_id)
      saved ← save_user (record user { role = role })
      log orm (
          user_entry none caller.id "ORG_USER_ROLE_UPDATED" none
            (some (two "user_id" (Json.uuid user.id) "role" (role_json user.role)))
            (some (two "user_id" (Json.uuid saved.id) "role" (role_json saved.role))))
      pure (serialize_user saved))

  unfoldable pub revoke_user : Uuid → RequestUser → Action (Unit {0})
  unfolding assert_admin find_org_user_or_throw assert_not_last_active_admin save_user log
  revoke_user user_id caller = do
    org_id ← assert_admin caller
    user ← find_org_user_or_throw user_id org_id
    when (user.role === UserRole.admin) (assert_not_last_active_admin user.id org_id)
    save_user (record user { is_active = false })
    modify (λ w. record w {
      refresh_tokens =
          orm.update (λ t. t.user_id == user.id) (λ t. record t { revoked = true })
            w.refresh_tokens;
    })
    log orm (
        user_entry none caller.id "ORG_USER_REVOKED" none
          (some (two "user_id" (Json.uuid user.id) "is_active" (Json.boolean true)))
          (some (two "user_id" (Json.uuid user.id) "is_active" (Json.boolean false))))
