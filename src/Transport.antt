-- ===== src/Transport.antt =====
-- The transports under the relay (node/transport/): BLE, WiFi, and the two as one.
pub mod Ble
pub mod Wifi
pub mod Multi
pub mod Readers
pub mod Sockets
pub mod Reconnect
pub mod Streams
pub mod Routing
