-- ===== src/Observability.antt =====
-- device_agent/observability: the log lines.
pub mod Logging
