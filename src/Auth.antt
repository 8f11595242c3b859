-- ===== src/Auth.antt =====
-- Authentication: src/auth, with the token checks of src/core/socket and src/common/guards.
pub mod Deps
pub mod Tokens
pub mod Sessions
pub mod Service
pub mod Controller
mod Tests
