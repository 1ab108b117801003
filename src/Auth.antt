-- ===== src/Auth.antt =====
-- backend/internal/auth/auth.go: accounts, logins, and the rotation of refresh tokens.
pub mod Records
pub mod Tokens
pub mod Accounts
pub mod Sessions
pub mod Inversion
pub mod Rotation
pub mod Validity
pub mod Replay
pub mod Logout
mod Plain
mod Tests
