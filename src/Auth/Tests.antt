-- ===== src/Auth/Tests.antt =====
-- Tests of the authentication service over a database and a cache in memory.
mod Memory
mod Library
