-- ===== src/Harness.antt =====
-- tests/integration.go and cmd/pucora-integration/main.go: the harness that starts a gateway and a
-- mocked backend, sends the requests of the test cases and checks the responses.
pub mod Config
pub mod Ready
pub mod Startup
pub mod Runner
pub mod Response
pub mod Assert
pub mod Environ
pub mod Mock
pub mod Main
pub mod Check
pub mod Specs
pub mod Cases
pub mod Panics
pub mod Session
pub mod Suite
mod Samples
pub mod Leftover
pub mod Crashing
pub mod Silence
mod Tests
mod Trials
mod Probes
