-- ===== src/ContractApproval.antt =====
-- contracts/contractapproval/approval.go: approvals of contract packs and their pins for partner links.
pub mod Types
pub mod Normal
pub mod Valid
pub mod Registry
mod Tests
