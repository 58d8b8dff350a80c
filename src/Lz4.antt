-- ===== src/Lz4.antt =====
-- arq_writer/lz4_block.py: the literal-only LZ4 encoder, the decoder, and Arq's length prefix.
pub mod Compress
pub mod Decompress
pub mod RoundTrip
pub mod Copy
pub mod Total
mod Examples
