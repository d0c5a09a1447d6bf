-- ===== src/Sessions/Fsm.antt =====
-- src/modules/sessions/session-fsm.ts: the transition table of a session, and the two functions
-- that search it.
pub mod Events
pub mod Diagram
pub mod Documented
pub mod Agreement
pub mod Lifecycle
