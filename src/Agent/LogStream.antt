-- ===== src/Agent/LogStream.antt =====
-- control_station_lite/agent/log_stream.py: where the last lines of a log begin, found by reading the
-- file backwards in chunks, and the following of the file from there.
pub mod Scan
pub mod Tail
pub mod Follow
pub mod Lines
pub mod Complete
mod Tests
