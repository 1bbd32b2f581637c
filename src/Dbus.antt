-- ===== src/Dbus.antt =====
-- src/dbus: the values that D-Bus messages carry, the proxies of remote objects, and the services
-- over them that do not belong to the network.
pub mod Variants
pub mod Events
pub mod Generated
pub mod Proxy
pub mod Systemd
pub mod TimeDate
