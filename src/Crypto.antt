-- ===== src/Crypto.antt =====
-- The sealed transport, client/src/crypto/crypto.cpp.
pub mod Chacha
pub mod Poly
pub mod Aead
pub mod Channel
pub mod Auth
