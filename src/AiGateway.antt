-- ===== src/AiGateway.antt =====
-- src/modules/ai-gateway: what the AI service sends back over NATS, and src/infra/nats, which
-- delivers it.
pub mod Handled
pub mod Events
pub mod Results
pub mod Tasks
pub mod Publication
pub mod Failures
pub mod Invariant
pub mod Lookups
pub mod Numbers
pub mod Repeats
pub mod Progress
pub mod Once
pub mod Subscriber
pub mod Divergence
mod Tests
