-- ===== src/OrderToCash.antt =====
-- contracts/contractpacks/ordertocash/pack.go: the order-to-cash contract pack: its manifest, and the
-- check of its payloads.
pub mod Interactions
pub mod Markers
pub mod Hosts
pub mod Payload
pub mod Manifest
mod Tests
