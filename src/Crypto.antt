-- ===== src/Crypto.antt =====
-- crypto/: envelope encryption of the genesis key material at rest.
pub mod Interfaces
pub mod Envelope
pub mod Local
pub mod External
pub mod Build
