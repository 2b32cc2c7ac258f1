-- ===== src/Server/Core/ScriptSync.antt =====
-- control_station_lite/server/core/script_sync.py: the control station fetches the state of a
-- script from an agent, stages it where that is due, and keeps a row about it.
pub mod Sync
pub mod Remote
pub mod Reached
pub mod Agrees
