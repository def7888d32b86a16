-- ===== src/Db.antt =====
-- db: the wrappers of databases.
pub mod Handles
pub mod Bolt
pub mod Types
pub mod Postgres
pub mod Mssql
pub mod Oracle
