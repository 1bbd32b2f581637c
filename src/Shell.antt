-- ===== src/Shell.antt =====
-- src/shell-command: the commands that the API runs on the device.
pub mod ChildProcess
pub mod PiSerial
pub mod Dpkg
pub mod Df
pub mod VcGenCmd
pub mod UpTime
pub mod RpiConfig
pub mod Journalctl
