-- ===== src/Server/Api.antt =====
-- control_station_lite/server/api: the endpoints of the control station.
pub mod Machines
pub mod Jobs
pub mod Scripts
pub mod Status
pub mod Builtin
pub mod Audit
pub mod Fixtures
mod Tests
