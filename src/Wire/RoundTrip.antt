-- ===== src/Wire/RoundTrip.antt =====
-- What the parsers of arq_reader/parse.py give back of what arq_writer/serialize.py wrote.
pub mod Rules
pub mod Stored
pub mod Fields
pub mod Tree
pub mod Rewrite
