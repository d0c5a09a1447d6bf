-- ===== src/Realtime.antt =====
-- The rooms of the socket server, src/modules/realtime.
pub mod RoomGuard
pub mod Joining
mod Tests
