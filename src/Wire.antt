-- ===== src/Wire.antt =====
-- The Arq 7 binary format of BlobLoc, Node and Tree: arq_writer/serialize.py, arq_reader/parse.py.
pub mod Errors
pub mod Bytes
pub mod Utf8
pub mod Types
pub mod Serialize
pub mod Reader
pub mod Parse
pub mod RoundTrip
pub mod Stable
pub mod Truncated
mod Examples
