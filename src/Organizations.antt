-- ===== src/Organizations.antt =====
-- The organisation component, src/modules/organizations: members, roles, invitations.
pub mod Service
pub mod LastAdmin
pub mod Requests
pub mod Membership
mod Tests
