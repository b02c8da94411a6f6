-- ===== src/Executor.antt =====
-- executor.go: how the gateway starts. `Collaborators` has the injected parts, `Run` the function
-- that `NewCmdExecutor` returns, `Usage`, `Logging` and `Telemetry` the default collaborators.
pub mod Flow
pub mod Config
pub mod Collaborators
pub mod Usage
pub mod Event
pub mod Run
pub mod Group
pub mod Schedule
pub mod Logging
pub mod Telemetry
pub mod Rejecter
pub mod Report
pub mod Gates
pub mod Counts
pub mod Correct
pub mod Stages
pub mod Reporting
pub mod Wiring
pub mod Samples
mod Tests
