-- ===== src/Crypto.antt =====
-- arq_writer/crypto_write.py, arq_validator/crypto.py, arq_reader/decrypt.py: encrypted objects (ARQO)
-- and the keyset file.
pub mod Primitives
pub mod Object
pub mod Multi
pub mod ObjectRoundTrip
pub mod Keyset
pub mod KeysetRoundTrip
pub mod Rotation
pub mod RotationKeeps
pub mod Toy
mod Examples
