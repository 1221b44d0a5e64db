-- ===== src/Examples.antt =====
-- Concrete inputs: runs of the code, and the theorems applied at them.
pub mod Frames
pub mod Centrals
pub mod Zones
pub mod Users
pub mod Toy
pub mod Queries
pub mod Packets
pub mod Journeys
pub mod Networks
pub mod Boots
pub mod Askings
pub mod Arrivals
pub mod Demos
pub mod Links
pub mod Nodes
pub mod Services
pub mod Venue
pub mod Backends
pub mod Settings
pub mod Reports
