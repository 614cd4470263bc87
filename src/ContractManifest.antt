-- ===== src/ContractManifest.antt =====
-- contracts/contractmanifest/manifest.go: signed service-contract manifests and their cache.
pub mod Types
pub mod Normal
pub mod Shape
pub mod Signing
pub mod Cache
mod Tests
