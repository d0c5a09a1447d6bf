-- ===== src/Audit.antt =====
-- The exports of the audit log, src/modules/audit/audit.service.ts.
pub mod Csv
pub mod Reader
pub mod Reading
mod Tests
