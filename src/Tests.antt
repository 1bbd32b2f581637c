-- ===== src/Tests.antt =====
-- Concrete stores, packages and daemons, which meet the interfaces that the development assumes,
-- and runs of the theorems at them.
pub mod Bytes
pub mod Token
pub mod Stores
pub mod Packages
pub mod Accounts
pub mod Sessions
pub mod Repositories
pub mod Calls
pub mod Network
pub mod Device
pub mod Commands
pub mod Clock
pub mod Messages
pub mod Reports
pub mod Checks
pub mod Requests
pub mod Turns
pub mod Strangers
pub mod Members
pub mod Logs
pub mod Status
pub mod TimeDate
pub mod Start
pub mod Secrets
pub mod Metadata
pub mod Description
pub mod Merging
