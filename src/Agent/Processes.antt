-- ===== src/Agent/Processes.antt =====
-- control_station_lite/agent/process_manager.py and state.py: the jobs that run as processes of
-- their own, and `running.json`, from which they are found again after a restart.
pub mod Records
pub mod Manager
pub mod Restart
pub mod Start
pub mod Killed
