-- ===== src/Location.antt =====
-- Node-served location (node/location/): the store of latest coordinates, the capability check that
-- guards it, and the service that the relay calls.
pub mod Store
pub mod Core
pub mod Authz
pub mod Service
