-- ===== src/Documents.antt =====
-- src/modules/documents: the files of a session, their sizes and their versions.
pub mod Validation
pub mod Service
pub mod Preprocess
pub mod Requests
pub mod Uploads
pub mod Changes
pub mod Bounds
mod Tests
