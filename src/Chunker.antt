-- ===== src/Chunker.antt =====
-- arq_writer/chunker.py: the Buzhash chunker and the fixed-size chunker.
pub mod Hash
pub mod Buzhash
pub mod Fixed
pub mod Splits
pub mod Returns
pub mod Bounds
pub mod FixedBounds
mod Examples
