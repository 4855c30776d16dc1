-- ===== src/Yubikey.antt =====
-- CA keys on a YubiKey: pkg/yubikey.
pub mod Policy
pub mod Token
pub mod Slot
pub mod Select
