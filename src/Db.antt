-- ===== src/Db.antt =====
-- The database as the program uses it (`db.rs`, the SQL texts of `repository/` and the schema of
-- `migrations/`). CockroachDB executes a statement on the tables, or the statement fails with an
-- error that the environment chooses; see `Session`.
pub mod Session
pub mod Tables
pub mod Sql
pub mod Retry
pub mod Schema
