-- ===== src/AuthStore.antt =====
-- internal/auth/auth_store.go: the statements that the auth service sends, and the transactions
-- that bundle them. A method that only forwards one statement is that statement under `exec`.
pub mod Accounts
pub mod Tokens
pub mod Totp
