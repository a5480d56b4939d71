-- ===== src/Encrypted.antt =====
-- pkg/store/encrypted: the authenticated encrypted store over an envelope backend.
pub mod Wire
pub mod Crypto
pub mod Blob
pub mod Store
pub mod System
