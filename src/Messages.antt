-- ===== src/Messages.antt =====
-- src/modules/messages: the messages of a session, and the cursor that pages through them.
pub mod Runtime
pub mod Pagination
pub mod Service
pub mod Pages
pub mod Paging
mod Tests
