-- ===== src/Server/Web.antt =====
-- control_station_lite/server/web: the pages of the control station.
pub mod Login
pub mod Users
pub mod Admins
pub mod Form
pub mod Run
pub mod JobList
pub mod Badges
pub mod Admin
pub mod Machines
mod Tests
