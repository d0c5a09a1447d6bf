-- ===== src/World.antt =====
-- What the services share and change: the tables, the audit log, what was sent. A service's
-- method is an `Action`: what it wrote before it threw stays written, since the services open no
-- transaction around a request.
mod State
mod Monad
pub use State.*
pub use Monad.*
mod Steps
pub use Steps.*
pub mod Fixtures
