-- ===== src/User.antt =====
-- Users: src/user.
pub mod Repository
pub mod Service
pub mod Laws
pub mod Coherence
pub mod Controller
mod Tests
