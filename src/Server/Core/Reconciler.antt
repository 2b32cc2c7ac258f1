-- ===== src/Server/Core/Reconciler.antt =====
-- control_station_lite/server/core/job_reconciler.py: the rows of the jobs that are still active are
-- brought up to date from the agents.
pub mod Pass
pub mod Outcome
