-- ===== src/Cache.antt =====
-- src/core/cache: the service over Redis.
pub mod Service
pub mod Connection
pub mod Laws
pub mod Fallbacks
pub mod Storage
pub mod Tests
