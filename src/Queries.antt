-- ===== src/Queries.antt =====
-- The SQL statements of internal/db/generated, one function for each, on the tables of the
-- database. An INSERT takes the next free row number, as SQLite gives it to an INTEGER PRIMARY KEY.
pub mod Users
pub mod Sessions
pub mod Tokens
pub mod Outbox
pub mod Totp
pub mod Projects
pub mod Reads
