-- ===== src/Alias.antt =====
-- cmd/pucora-ce/main.go: the short names of the configuration namespaces.
pub mod Defs
pub mod Loop
pub mod Order
pub mod Refines
mod Tests
