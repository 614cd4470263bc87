-- ===== src/ContractApproval/Types.antt =====
-- contracts/contractapproval/approval.go: records, pins and inputs.
use xx_federation_contracts.Base.{ℕ, String, List}
use xx_federation_contracts.Base.Int.{ℤ, pos}
use xx_federation_contracts.Base.Maps.{Map}
use xx_federation_contracts.Apperrors.{GoError, policy_denied, new}
use xx_federation_contracts.ContractManifest.Types.{Manifest}

abbrev pub state_pending_approval : String
state_pending_approval = "pending_approval"

abbrev pub state_approved : String
state_approved = "approved"

abbrev pub state_revoked : String
state_revoked = "revoked"

pub record ContractPin : Type 0 where
  pub contract_id : String
  pub contract_version : String
  pub payload_schema_hash_sha256 : String
  pub service_catalog_id : String
  pub action : String
  pub service_catalog_action : String

pub record ApprovalRecord : Type 0 where
  pub tenant_id : String
  pub catalog_version : String
  pub pack_version : String
  pub manifest_id : String
  pub manifest_hash_sha256 : String
  pub state : String
  pub allowed_partner_link_ids : List String
  pub contracts : List ContractPin
  pub approved_by : String
  pub approved_at_ms : ℤ
  pub created_by : String
  pub created_at_ms : ℤ
  pub audit_binding_hash_sha256 : String

pub record PartnerPin : Type 0 where
  pub tenant_id : String
  pub partner_link_id : String
  pub catalog_version : String
  pub pack_version : String
  pub manifest_hash_sha256 : String
  pub previous_pack_version : String
  pub previous_manifest_hash_sha256 : String
  pub pinned_by : String
  pub pinned_at_ms : ℤ
  pub reason : String
  pub audit_binding_hash_sha256 : String

-- `PartnerPin{}`
abbrev pub empty_pin : PartnerPin
empty_pin = record {
  tenant_id = "";
  partner_link_id = "";
  catalog_version = "";
  pack_version = "";
  manifest_hash_sha256 = "";
  previous_pack_version = "";
  previous_manifest_hash_sha256 = "";
  pinned_by = "";
  pinned_at_ms = pos 0;
  reason = "";
  audit_binding_hash_sha256 = "";
}

pub record ApprovalInput : Type 0 where
  pub manifest : Manifest
  pub pack_version : String
  pub state : String
  pub allowed_partner_link_ids : List String
  pub service_catalog_id_by_contract_id : Map String
  pub service_catalog_action_by_contract_id : Map String
  pub approved_by : String
  pub approved_at_ms : ℤ
  pub created_by : String
  pub created_at_ms : ℤ

pub record PinInput : Type 0 where
  pub tenant_id : String
  pub partner_link_id : String
  pub catalog_version : String
  pub pack_version : String
  pub manifest_hash_sha256 : String
  pub pinned_by : String
  pub pinned_at_ms : ℤ
  pub reason : String

-- What is not under the repository: `json.Marshal` of a record and of a pin, and SHA-256.
pub record Hasher : Type 0 where
  pub marshal_record : ApprovalRecord → List ℕ
  pub marshal_pin : PartnerPin → List ℕ
  pub sha256 : List ℕ → List ℕ

-- `approvalErr`
unfoldable pub approval_err : String → GoError
approval_err message = new policy_denied "contract_approval" message
