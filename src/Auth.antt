-- ===== src/Auth.antt =====
-- src/authentication: who may log in, and who may call which route.
pub mod Crypto
pub mod Service
pub mod UserService
pub mod Guard
pub mod Commands
