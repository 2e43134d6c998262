-- ===== src/Auth.antt =====
-- internal/auth: the auth service, one module for each group of its methods.
pub mod Service
pub mod Addresses
pub mod BackupCodes
pub mod Accounts
pub mod Sessions
pub mod Passwords
pub mod EmailChange
pub mod Atomicity
pub mod Invariant
pub mod Calls
pub mod Revocation
pub mod SpentTokens
pub mod SingleUse
pub mod Totp
pub mod SessionLaws
pub mod Progress
pub mod RegistrationLaws
pub mod Registration
pub mod SessionRevocation
pub mod Deletion
pub mod SessionTokens
pub mod AddressChange
