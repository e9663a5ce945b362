-- ===== src/Sql.antt =====
-- The SQL value classes of database/include/sql/types and database/source/sql/types.
pub mod Boolean
pub mod Exact
pub mod Date
pub mod Time
pub mod Token
pub mod Tokenizer
