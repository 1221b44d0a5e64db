-- ===== src/AccessPoint.antt =====
-- The access point of a node (node/wifi_ap/): its settings, hostapd.conf, and the backends that
-- bring it up.
pub mod Deployment
pub mod Hostapd
pub mod Injection
pub mod Hosting
pub mod Lines
pub mod ReadBack
pub mod Sharing
pub mod Restore
