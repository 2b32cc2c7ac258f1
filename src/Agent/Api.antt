-- ===== src/Agent/Api.antt =====
-- control_station_lite/agent/main.py: the HTTP interface of the agent, over its managers.
pub mod Wire
pub mod Jobs
pub mod App
pub mod Access
pub mod Executed
pub mod Expected
mod Tests
