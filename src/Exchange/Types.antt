-- ===== src/Exchange/Types.antt =====
-- The data of contracts/exchange/exchange.go and discovery.go: what the gateways send, what the
-- collaborators are asked, and what is answered and audited.
use xx_federation_contracts.Base.{ℕ, String, Bool, false, List, [], Option}
use xx_federation_contracts.Base.Int.{ℤ, pos}
use xx_federation_contracts.Base.Maps.{Map}

pub record GatewayRef : Type 0 where
  pub tenant_id : String
  pub gateway_id : String
  pub gateway_pool_id : String

pub record ContractRef : Type 0 where
  pub contract_id : String
  pub contract_version : String
  pub manifest_hash_sha256 : String
  pub payload_schema_hash_sha256 : String

-- `ContractRef{}`
abbrev pub empty_ref : ContractRef
empty_ref = record {
  contract_id = "";
  contract_version = "";
  manifest_hash_sha256 = "";
  payload_schema_hash_sha256 = "";
}

pub record Envelope : Type 0 where
  pub schema_version : String
  pub envelope_id : String
  pub correlation_id : String
  pub idempotency_key : String
  pub sent_at_ms : ℤ
  pub expires_at_ms : ℤ
  pub partner_link_id : String
  pub source : GatewayRef
  pub destination : GatewayRef
  pub contract : ContractRef
  pub action : String
  pub payload_encoding : String
  pub payload_hash_sha256 : String
  pub payload : List ℕ

pub record AuthenticatedSession : Type 0 where
  pub local_tenant_id : String
  pub local_gateway_id : String
  pub remote_tenant_id : String
  pub remote_gateway_id : String
  pub remote_service_principal_id : String
  pub partner_link_id : String
  pub partner_link_state : String
  pub kill_switch_enabled : Bool
  pub control_partner_link_id : String

pub record ActionContract : Type 0 where
  pub action : String
  pub service_catalog_action : String
  pub facade_method : String
  pub mutating : Bool
  pub idempotency_required : Bool
  pub payload_encoding : String
  pub max_payload_bytes : ℤ
  pub private_topology_allowed : Bool
  pub allowed_partner_link_ids : List String

-- `ActionContract{}`
abbrev pub empty_action : ActionContract
empty_action = record {
  action = "";
  service_catalog_action = "";
  facade_method = "";
  mutating = false;
  idempotency_required = false;
  payload_encoding = "";
  max_payload_bytes = pos 0;
  private_topology_allowed = false;
  allowed_partner_link_ids = [];
}

pub record Manifest : Type 0 where
  pub tenant_id : String
  pub manifest_id : String
  pub catalog_version : String
  pub contract_id : String
  pub contract_version : String
  pub manifest_hash_sha256 : String
  pub payload_schema_hash_sha256 : String
  pub expires_at_ms : ℤ
  pub revoked : Bool
  pub actions : Map ActionContract

-- `Manifest{}`
abbrev pub empty_manifest : Manifest
empty_manifest = record {
  tenant_id = "";
  manifest_id = "";
  catalog_version = "";
  contract_id = "";
  contract_version = "";
  manifest_hash_sha256 = "";
  payload_schema_hash_sha256 = "";
  expires_at_ms = pos 0;
  revoked = false;
  actions = [];
}

pub record ReplayClaim : Type 0 where
  pub envelope_id : String
  pub idempotency_key : String
  pub expires_at_ms : ℤ

-- `PolicyCheck`, and `ContractApprovalCheck`, which has the same fields.
pub record PolicyCheck : Type 0 where
  pub session : AuthenticatedSession
  pub envelope : Envelope
  pub manifest : Manifest
  pub action : ActionContract

pub record PayloadValidationInput : Type 0 where
  pub contract : ContractRef
  pub action : ActionContract
  pub payload : List ℕ

pub record AuditEvent : Type 0 where
  pub schema_version : String
  pub local_tenant_id : String
  pub local_gateway_id : String
  pub envelope_id : String
  pub correlation_id : String
  pub decision : String
  pub denial_code : String
  pub authenticated_remote_gateway_id : String
  pub remote_tenant_id : String
  pub partner_link_id : String
  pub contract_id : String
  pub manifest_hash_sha256 : String
  pub action : String
  pub facade_method : String

pub record PreflightDecision : Type 0 where
  pub schema_version : String
  pub decision_id : String
  pub local_tenant_id : String
  pub local_gateway_id : String
  pub envelope_id : String
  pub correlation_id : String
  pub decision : String
  pub denial_code : String
  pub authenticated_remote_gateway_id : String
  pub remote_tenant_id : String
  pub partner_link_id : String
  pub contract_id : String
  pub manifest_hash_sha256 : String
  pub action : String
  pub facade_method : String
  pub audit_event_id : String

pub record AcceptedEnvelope : Type 0 where
  pub session : AuthenticatedSession
  pub envelope : Envelope
  pub manifest : Manifest
  pub action : ActionContract
  pub decision : PreflightDecision

pub record DispatchResult : Type 0 where
  pub status : String
  pub payload_json : String

-- `DispatchResult{}`
abbrev pub empty_result : DispatchResult
empty_result = record { status = ""; payload_json = "" }

pub record ErrorInfo : Type 0 where
  pub code : String
  pub text : String

pub record Response : Type 0 where
  pub decision : PreflightDecision
  pub result : DispatchResult
  pub error : Option ErrorInfo

pub record SignedManifestDocument : Type 0 where
  pub manifest_id : String
  pub catalog_version : String
  pub signing_key_id : String
  pub manifest_hash_sha256 : String
  pub document : List ℕ

pub record ManifestDiscoveryResult : Type 0 where
  pub schema_version : String
  pub manifests : List SignedManifestDocument
