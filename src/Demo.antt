-- ===== src/Demo.antt =====
-- examples: the backends and clients with which the gateway is tried out.
pub mod Common
pub mod Flights
pub mod Health
pub mod Graphql
pub mod Routes
pub mod Smoke
pub mod Soap
pub mod Streaming
pub mod Tokens
pub mod Webhook
pub mod Websocket
pub mod Echo
mod Tests
mod Trials
