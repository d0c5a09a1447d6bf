-- ===== src/Sessions.antt =====
-- The session component, src/modules/sessions: the state machine and the service.
pub mod Fsm
pub mod Access
pub mod Service
pub mod Lookup
pub mod Controller
pub mod Dispatch
pub mod Dispatching
pub mod Outcomes
pub mod Requests
pub mod Saves
pub mod Invariant
pub mod Archiving
pub mod Overrides
mod Tests
