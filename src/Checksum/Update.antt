-- ===== src/Checksum/Update.antt =====
-- Incremental updates give the checksum that a full computation would give.
pub mod Step
pub mod Tcp
