-- ===== src/Exclusions.antt =====
-- arq_writer/exclusions.py: which paths of the source tree a backup skips.
pub mod Paths
pub mod Rules
pub mod LastMatch
mod Examples
