-- ===== src/Server.antt =====
-- control_station_lite/server: the control station.
pub mod Core
pub mod Auth
pub mod Api
pub mod Web
pub mod Cli
mod Tests
