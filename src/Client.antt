-- ===== src/Client.antt =====
-- The command of cmd/client/main.go.
pub mod Output
pub mod Accumulate
pub mod Tracking
pub mod Batch
pub mod Averages
pub mod Coverage
pub mod Commands
pub mod Requests
pub mod Checks
pub mod Steered
pub mod Backend
