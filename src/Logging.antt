-- ===== src/Logging.antt =====
-- The buffers of log lines.
pub mod Ring
