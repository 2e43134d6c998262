-- ===== src/Examples.antt =====
-- Runs of the model on concrete data: a service, a database and calls of them.
pub mod Fixtures
pub mod RateLimits
pub mod Histories
pub mod Passwords
pub mod Accounts
pub mod Sessions
pub mod Outbox
pub mod Clients
pub mod Cleanups
pub mod SecondFactor
pub mod Challenges
pub mod Hashes
pub mod Serving
pub mod Settings
