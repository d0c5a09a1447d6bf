-- ===== src/Workflows.antt =====
-- The workflow component, src/modules/workflows: versions, comparison, sharing.
pub mod Rows
pub mod Service
pub mod Outcomes
pub mod Numbering
pub mod Diff
pub mod Comparison
pub mod Share
pub mod Versions
pub mod Requests
pub mod Sharing
mod Tests
