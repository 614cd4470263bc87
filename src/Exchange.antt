-- ===== src/Exchange.antt =====
-- contracts/exchange: the inter-enterprise gateway exchange.
pub mod Names
pub mod Types
pub mod Session
pub mod Topology
pub mod Payload
pub mod Replay
pub mod Handler
mod Tests
