-- ===== src/Rules.antt =====
-- The rule component, src/modules/rules: instructions to the agents, their versions and conflicts.
pub mod Conditions
pub mod Access
pub mod Cache
pub mod Service
pub mod Conflicts
pub mod Context
pub mod Requests
pub mod Guards
pub mod Creation
pub mod Changes
pub mod Invariants
mod Tests
