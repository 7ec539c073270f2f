-- ===== src/Async.antt =====
-- The programs cmd/gateway, cmd/core and cmd/data, which pass messages over a broker.
pub mod Contracts
pub mod Gateway
pub mod Core
pub mod Reads
pub mod Data
pub mod Asking
pub mod Granted
pub mod Rights
pub mod Once
pub mod Owners
mod Tests
mod StoredTests
