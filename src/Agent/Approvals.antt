-- ===== src/Agent/Approvals.antt =====
-- control_station_lite/agent/approvals.py: the approval state machine of one agent installation.
pub mod Data
pub mod Disk
pub mod Manager
pub mod Effects
pub mod Run
pub mod Consent
pub mod Files
pub mod Edges
pub mod Audited
pub mod Integrity
pub mod Shape
mod Tests
pub mod Sharing
