-- ===== src/Comments.antt =====
-- The comment component, src/modules/comments: comments on workflows, replies, resolution.
pub mod Service
pub mod Outcomes
pub mod Threads
pub mod Refusals
mod Tests
