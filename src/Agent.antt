-- ===== src/Agent.antt =====
-- control_station_lite/agent: the service on the target machine.
pub mod Approvals
pub mod Params
pub mod Runner
pub mod Processes
pub mod LogStream
pub mod Policy
pub mod Cli
pub mod Api
pub mod Lifecycle
pub mod Gateway
pub mod Fixtures
mod Tests
