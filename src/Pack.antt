-- ===== src/Pack.antt =====
-- Pack files: arq_writer/pack_builder.py writes them, arq_reader/pack.py finds their entries.
pub mod Dict
pub mod Builder
pub mod Stored
pub mod ReadBack
mod Examples
pub mod Index
pub mod Tiles
pub mod Summary
pub mod Magic
pub mod Objects
pub mod Recovered
pub mod Decode
pub mod Decoded
