-- ===== src/Inputs.antt =====
-- internal/plugins/inputs: the plugins that collect telemetry.
pub mod Wire
pub mod Reader
pub mod Setup
pub mod Dnssnoop
pub mod Opensnoop
pub mod Template
pub mod Memleak
pub mod Fleet
