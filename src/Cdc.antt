-- ===== src/Cdc.antt =====
-- cdc/: the delivery of change events to the sinks of an organisation.
pub mod Webhook
pub mod Engine
pub mod Documents
pub mod Watcher
