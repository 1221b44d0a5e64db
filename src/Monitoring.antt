-- ===== src/Monitoring.antt =====
-- What a node reports of itself (node/monitoring/): the heartbeat, the battery and the host.
pub mod Heartbeat
pub mod Battery
pub mod Host
pub mod Counts
