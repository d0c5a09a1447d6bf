-- ===== src/Messaging.antt =====
-- What the services call to report and to notify: the audit log (src/modules/audit), the NATS
-- publisher (src/infra/nats) and the socket gateway (src/modules/realtime).
pub mod Audit
pub mod Publisher
pub mod Gateway
pub mod Delivery
