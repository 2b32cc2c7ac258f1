-- ===== src/Server/Core.antt =====
-- control_station_lite/server/core.
pub mod MagicPacket
pub mod Crypto
pub mod Ssh
pub mod AgentClient
pub mod Errors
pub mod ScriptSync
pub mod Reconciler
pub mod Registry
pub mod Builtin
