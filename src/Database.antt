-- ===== src/Database.antt =====
-- Soft deletion: src/core/database.
pub mod SoftDelete
pub mod Migration
mod Tests
