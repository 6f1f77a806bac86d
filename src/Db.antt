-- ===== src/Db.antt =====
-- The database: the rows of internal/db/sqlc/models.go, the tables, and statements that may fail.
pub mod Rows
pub mod Exec
pub mod Reads
