-- ===== src/Shared.antt =====
-- control_station_lite/shared: what the agent and the control station both use.
pub mod Models
pub mod ScriptName
pub mod ScriptMeta
pub mod Registration
pub mod SshCommands
pub mod Validation
mod Tests
