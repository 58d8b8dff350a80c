-- ===== src/Record.antt =====
-- arq_writer/backuprecord.py: the payload of a backup record.
pub mod Values
pub mod Parse
