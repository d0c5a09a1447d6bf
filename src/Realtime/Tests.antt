-- ===== src/Realtime/Tests.antt =====
-- Runs of the room guard on the database of World/Fixtures.antt.
use back_end.Prelude.{ℕ, true, ◌≡◌, refl, some}
use back_end.Database.InMemory.{in_memory}
use back_end.Database.Enums.{UserRole}
use back_end.World.Fixtures.{office}
use back_end.Realtime.RoomGuard.{
  SocketUserData, session_of, rejected, can_join, can_join_as, validate_session_org,
}
use back_end.Realtime.Joining.{MayEnter, can_join-MayEnter}

abbrev bob : SocketUserData
bob = record { user_id = some 12; org_id = some 1; role = UserRole.viewer }

abbrev eve : SocketUserData
eve = record { user_id = some 20; org_id = some 2; role = UserRole.admin }

eve_stays_out :
    can_join in_memory eve (session_of 70) (office true)
    ≡ rejected "Session does not belong to your organization"
unfolding can_join can_join_as validate_session_org
eve_stays_out = refl

can_join-MayEnter_example :
    (user_id : ℕ) × (org_id : ℕ) × (some 12 ≡ some user_id)
    × (some 1 ≡ some org_id)
    × MayEnter (office true) user_id org_id UserRole.viewer (session_of 70)
unfolding can_join can_join_as validate_session_org
can_join-MayEnter_example = can_join-MayEnter in_memory (office true) bob (session_of 70) refl
