-- ===== src/Network.antt =====
-- src/dbus/interfaces/network-manager and src/device/network: reading and changing the settings of
-- a network connection.
pub mod Adapter
pub mod Devices
pub mod Settings
pub mod Service
pub mod Requests
pub mod Commands
