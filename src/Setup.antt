-- ===== src/Setup.antt =====
-- The setup wizard: the environment variables, the file .env, and the server.
pub mod EnvDefinition
pub mod Env
pub mod DatabaseUrl
pub mod EnvFile
pub mod Page
pub mod Mysql
pub mod Server
pub mod Tests
