-- ===== src/Server/Core/Registry.antt =====
-- control_station_lite/server/core/script_registry.py: the table of scripts, keyed by their names,
-- which are unique.
pub mod Table
pub mod Consistent
