-- ===== src/Store.antt =====
-- internal/store: the encryption of credentials at rest.
pub mod Cipher
pub mod RefreshLock
pub mod Config
pub mod HostRateLimit
