-- ===== src/Vault.antt =====
-- backend/internal/vault/vault.go: the vault of encrypted secrets.
pub mod Records
pub mod Secrets
pub mod Rotation
pub mod Reads
pub mod Inversion
pub mod Map
pub mod Expiry
mod Tests
