-- ===== src/Retention.antt =====
-- arq_writer/retention.py: which backup records a policy keeps.
pub mod Dates
pub mod Select
pub mod Reference
pub mod Newest
pub mod Described
pub mod Keeps
pub mod Limits
mod Examples
