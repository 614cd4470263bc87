-- ===== src/ServiceAccessCap.antt =====
-- serviceaccesscap: signed capabilities to reach one published service, and their revocation
-- tombstones.
pub mod Types
pub mod Resource
pub mod Capability
pub mod Tombstone
pub mod Challenged
pub mod Signed
mod Tests
