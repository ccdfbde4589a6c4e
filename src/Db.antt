-- ===== src/Db.antt =====
-- The two databases as one world of tables, and calls that read and write them.
pub mod Rows
pub mod World
pub mod Rules
pub mod Success
