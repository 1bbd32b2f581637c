-- ===== src/Device.antt =====
-- src/device: the services behind the controllers of the device.
pub mod Reports
pub mod Status
pub mod Config
pub mod DateTime
pub mod Metadata
pub mod Syslog
