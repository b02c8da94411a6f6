-- ===== src/Pipe.antt =====
-- backend_client_tls.go, backend_factory.go, proxy_factory.go, handler_factory.go and
-- router_engine.go: how the layers of a backend, a proxy, a handler and the engine are stacked.
pub mod Tls
pub mod Executor
pub mod Handler
pub mod Layers
pub mod Guards
pub mod Connectors
pub mod Proxies
pub mod Route
pub mod Engine
pub mod Factories
mod Tests
mod Samples
mod Trials
