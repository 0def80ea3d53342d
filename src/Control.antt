-- ===== src/Control.antt =====
-- device_agent/control: the reconnect delays and the control stream.
pub mod Backoff
pub mod Connection
