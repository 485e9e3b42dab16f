-- ===== src/Vault.antt =====
-- vault/vault.go: the encrypted store of secrets, its file and its passphrase, the markers that
-- stand for its secrets, and the session of the web server that holds it.
pub mod Format
pub mod Store
pub mod Files
pub mod Refs
pub mod Migrate
pub mod Session
mod Tests
