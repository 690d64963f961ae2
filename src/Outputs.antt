-- ===== src/Outputs.antt =====
-- internal/plugins/outputs: the plugins that write telemetry out.
pub mod Loki
pub mod Lines
pub mod Console
pub mod File
pub mod Fleet
