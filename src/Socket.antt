-- ===== src/Socket.antt =====
-- The real-time part: src/core/socket.
pub mod Rooms
pub mod Gateway
pub mod AuthAdapter
pub mod AuthGuard
pub mod Admission
mod Tests
pub mod Docs
