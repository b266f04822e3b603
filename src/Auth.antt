-- ===== src/Auth.antt =====
-- services/auth-service.
pub mod Texts
pub mod Model
pub mod Environment
pub mod Dependencies
pub mod Accounts
pub mod Login
pub mod Tokens
pub mod Recovery
pub mod Runs
pub mod Laws
pub mod Rows
pub mod Writes
pub mod Stores
pub mod Callers
pub mod Keeping
pub mod Kept
pub mod Marks
pub mod Sessions
pub mod Rotation
pub mod Passwords
pub mod Once
pub mod Users
pub mod Lockout
pub mod Knocks
pub mod Logins
pub mod Recovered
mod Samples
mod Tests
