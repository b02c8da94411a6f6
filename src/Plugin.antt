-- ===== src/Plugin.antt =====
-- plugin.go: loading the plugins, and the command that tests them.
pub mod Loader
pub mod Check
pub mod Command
pub mod Exit
pub mod Flags
mod Tests
