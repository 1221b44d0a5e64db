-- ===== src/Backhaul.antt =====
-- The links between nodes (node/backhaul/): the UDP backhaul and the zone announcements over it.
pub mod Udp
pub mod Sync
pub mod Demux
pub mod Gossip
pub mod Radio
