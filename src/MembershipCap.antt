-- ===== src/MembershipCap.antt =====
-- membershipcap: signed membership capabilities, their revocation lists, mesh registrations and the
-- roster of a fabric's peers.
pub mod Types
pub mod Capability
pub mod Revocation
pub mod Roster
pub mod Registration
pub mod Assembly
pub mod Signed
mod Tests
