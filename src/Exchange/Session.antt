-- ===== src/Exchange/Session.antt =====
-- contracts/exchange/exchange.go: normalisation of sessions and envelopes, and the identity checks
-- between the authenticated session, the envelope and the contract.
use xx_federation_contracts.Base.{
  String, Bool, false, ◌&&◌, ◌||◌, not, List, [], ◌∷◌, ◌==◌, any, is_empty,
}
use xx_federation_contracts.Base.Text.{trim_space}
use xx_federation_contracts.Exchange.Types.{
  GatewayRef, ContractRef, Envelope, AuthenticatedSession, ActionContract, Manifest,
}
use xx_federation_contracts.Exchange.Names.{
  facade_get_service_catalog_view, facade_open_federation_transaction,
  facade_create_federation_room, facade_submit_federation_message, facade_request_builder_work,
  facade_submit_federation_result, facade_deliver_builder_work_result,
  facade_submit_commercial_event, facade_establish_data_channel,
}

-- `ControlPartnerLinkID` and the kill switch are left as they are.
unfoldable pub normalize_session : AuthenticatedSession → AuthenticatedSession
normalize_session session = record session {
  local_tenant_id = trim_space session.local_tenant_id;
  local_gateway_id = trim_space session.local_gateway_id;
  remote_tenant_id = trim_space session.remote_tenant_id;
  remote_gateway_id = trim_space session.remote_gateway_id;
  remote_service_principal_id = trim_space session.remote_service_principal_id;
  partner_link_id = trim_space session.partner_link_id;
  partner_link_state = trim_space session.partner_link_state;
}

unfoldable pub normalize_gateway_ref : GatewayRef → GatewayRef
normalize_gateway_ref ref = record {
  tenant_id = trim_space ref.tenant_id;
  gateway_id = trim_space ref.gateway_id;
  gateway_pool_id = trim_space ref.gateway_pool_id;
}

-- The four assignments to `env.Contract`; `normalizeContractRef` of contractmanifest is the same.
unfoldable pub normalize_contract_ref : ContractRef → ContractRef
normalize_contract_ref ref = record {
  contract_id = trim_space ref.contract_id;
  contract_version = trim_space ref.contract_version;
  manifest_hash_sha256 = trim_space ref.manifest_hash_sha256;
  payload_schema_hash_sha256 = trim_space ref.payload_schema_hash_sha256;
}

unfoldable pub normalize_envelope : Envelope → Envelope
unfolding normalize_gateway_ref normalize_contract_ref
normalize_envelope env = record env {
  schema_version = trim_space env.schema_version;
  envelope_id = trim_space env.envelope_id;
  correlation_id = trim_space env.correlation_id;
  idempotency_key = trim_space env.idempotency_key;
  partner_link_id = trim_space env.partner_link_id;
  source = normalize_gateway_ref env.source;
  destination = normalize_gateway_ref env.destination;
  contract = normalize_contract_ref env.contract;
  action = trim_space env.action;
  payload_encoding = trim_space env.payload_encoding;
  payload_hash_sha256 = trim_space env.payload_hash_sha256;
}

-- The pairs (envelope tenant, session tenant) that `tenantMatch` accepts beside equal tenants.
abbrev pub tenant_aliases : List (String × String)
tenant_aliases =
    ("oldco.baylifeventures.com", "018f4c2f-0f35-7e60-9d8d-6fd735dd0001")
    ∷ ("018f4c2f-0f35-7e60-9d8d-6fd735dd0001", "oldco.baylifeventures.com")
    ∷ ("gcpco.baylifeventures.com", "018f4c2f-0f35-7e60-9d8d-6fd735ee0001")
    ∷ ("018f4c2f-0f35-7e60-9d8d-6fd735ee0001", "gcpco.baylifeventures.com")
    ∷ ("org-awsco", "018f4c2f-0f35-7e60-9d8d-6fd735ee0001")
    ∷ ("018f4c2f-0f35-7e60-9d8d-6fd735ee0001", "org-awsco")
    ∷ ("azureco.baylifeventures.com", "018f4c2f-0f35-7e60-9d8d-6fd735aa0001")
    ∷ ("018f4c2f-0f35-7e60-9d8d-6fd735aa0001", "azureco.baylifeventures.com")
    ∷ ("018f4c2f-0f35-7e60-9d8d-6fd735dd0001", "018f4c2f-0f35-7e60-9d8d-6fd735aa0001")
    ∷ ("018f4c2f-0f35-7e60-9d8d-6fd735aa0001", "018f4c2f-0f35-7e60-9d8d-6fd735dd0001")
    ∷ []

abbrev pub gateway_aliases : List (String × String)
gateway_aliases =
    ("3b886348-c979-525f-a134-5e74e68b4649", "e9042823-4edd-59a6-ba29-199ec34efe78")
    ∷ ("e9042823-4edd-59a6-ba29-199ec34efe78", "3b886348-c979-525f-a134-5e74e68b4649")
    ∷ []

-- One `if a == x && b == y { return true }` for each pair of the list.
unfoldable pub listed : List (String × String) → String → String → Bool
listed [] a b = false
listed ((x, y) ∷ pairs) a b = (a == x && b == y) || listed pairs a b

unfoldable pub tenant_match : String → String → Bool
unfolding listed
tenant_match env_tenant session_tenant =
    env_tenant == session_tenant || listed tenant_aliases env_tenant session_tenant

unfoldable pub gateway_match : String → String → Bool
unfolding listed
gateway_match env_gateway session_gateway =
    env_gateway == ""
    || env_gateway == session_gateway
    || listed gateway_aliases env_gateway session_gateway

unfoldable pub session_matches_envelope : AuthenticatedSession → Envelope → Bool
session_matches_envelope session env =
    not (
      session.remote_tenant_id == ""
      || session.remote_gateway_id == ""
      || session.local_tenant_id == ""
      || session.local_gateway_id == ""
      || session.partner_link_id == ""
      || env.partner_link_id == "")
    && session.partner_link_id == env.partner_link_id
    && tenant_match env.source.tenant_id session.remote_tenant_id
    && env.source.gateway_id == session.remote_gateway_id
    && tenant_match env.destination.tenant_id session.local_tenant_id
    && gateway_match env.destination.gateway_id session.local_gateway_id

-- `==` of the struct `ContractRef`.
abbrev pub ref_eq : ContractRef → ContractRef → Bool
ref_eq a b =
    a.contract_id == b.contract_id
    && a.contract_version == b.contract_version
    && a.manifest_hash_sha256 == b.manifest_hash_sha256
    && a.payload_schema_hash_sha256 == b.payload_schema_hash_sha256

unfoldable pub manifest_matches : Manifest → ContractRef → Bool
manifest_matches manifest ref =
    manifest.contract_id == ref.contract_id
    && manifest.contract_version == ref.contract_version
    && manifest.manifest_hash_sha256 == ref.manifest_hash_sha256
    && manifest.payload_schema_hash_sha256 == ref.payload_schema_hash_sha256

unfoldable pub allowed_facade_method : String → Bool
allowed_facade_method method =
    method == facade_get_service_catalog_view
    || method == facade_open_federation_transaction
    || method == facade_create_federation_room
    || method == facade_submit_federation_message
    || method == facade_request_builder_work
    || method == facade_submit_federation_result
    || method == facade_deliver_builder_work_result
    || method == facade_submit_commercial_event
    || method == facade_establish_data_channel

-- An empty allow-list allows no link.
unfoldable pub partner_link_allowed : ActionContract → String → Bool
partner_link_allowed action partner_link_id =
    not (is_empty action.allowed_partner_link_ids)
    && any (λ allowed. trim_space allowed == trim_space partner_link_id)
        action.allowed_partner_link_ids
