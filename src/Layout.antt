-- ===== src/Layout.antt =====
-- arq_validator/layout.py: the directories of a destination.
pub mod Paths
pub mod Discover
pub mod Records
pub mod Slash
pub mod Order
mod Examples
