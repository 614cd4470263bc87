-- ===== src/OrderToCash/Manifest.antt =====
-- contracts/contractpacks/ordertocash/pack.go: the contracts and the manifest of the pack, and the check
-- of a payload that the gateway exchange asks for.
pub mod Shaped
pub mod Resolved
use Prim.Native.String.{◌++◌}
use xx_federation_contracts.Base.{
  String, Bool, true, false, ◌||◌, not, List, [], ◌∷◌, Option, none, some, map, ◌==◌, if◌then◌else◌,
}
use xx_federation_contracts.Base.Int.{ℤ, pos, is_nonpositive}
use xx_federation_contracts.Base.Bytes.{Bytes}
use xx_federation_contracts.Base.Text.{trim_space}
use xx_federation_contracts.Base.Slices.{normalize_strings}
use xx_federation_contracts.Base.Exec.{Result, ok, err}
use xx_federation_contracts.Exchange.Names.{
  action_open_federation_transaction, facade_open_federation_transaction,
}
use xx_federation_contracts.Exchange.Types.{PayloadValidationInput, ActionContract}
use xx_federation_contracts.ContractManifest.Types.{Contract, Manifest, empty_signature, made}
use xx_federation_contracts.ContractManifest.Shape.{schema_version}
use xx_federation_contracts.OrderToCash.Interactions.{Interaction, interactions}
use xx_federation_contracts.OrderToCash.Payload.{
  Pack, PayloadError, not_in_pack, version_unsupported, schema_mismatch, not_narrowed,
  contract_version, interaction_by_contract_id, payload_schema_hash, validate_payload,
}

abbrev pub catalog_version : String
catalog_version = "order_to_cash.v1"

pub record ManifestInput : Type 0 where
  pub tenant_id : String
  pub manifest_id : String
  pub issued_at_ms : ℤ
  pub expires_at_ms : ℤ
  pub signing_key_id : String
  pub partner_link_ids : List String
  pub max_payload_bytes : ℤ
  pub replay_window_secs : ℤ
  pub egress_policy_prefix : String

-- `if n <= 0 { n = default }`
abbrev pub positive_or : ℤ → ℤ → ℤ
positive_or default n = if is_nonpositive n then default else n

-- `egressPrefix`
abbrev pub egress_prefix : String → String
egress_prefix prefix = if trim_space prefix == "" then "egress.order_to_cash" else trim_space prefix

module _ (pack : Pack) where
  -- One turn of the loop of `Contracts`.
  unfoldable pub contract_of : ManifestInput → Interaction → Contract
  contract_of input i = record {
    contract_id = i.contract_id;
    contract_version = contract_version;
    display_name = i.display_name;
    action = action_open_federation_transaction;
    service_catalog_action = i.business_action;
    payload_schema_ref = i.schema_ref;
    payload_schema_hash_sha256 = payload_schema_hash pack i.contract_id;
    max_payload_bytes = positive_or (pos 32768) input.max_payload_bytes;
    requires_idempotency = true;
    replay_window_seconds = positive_or (pos 86400) input.replay_window_secs;
    allowed_partner_link_ids = made (normalize_strings input.partner_link_ids);
    allowed_gateway_method_scopes = made ("federation.open_federation_transaction" ∷ []);
    private_topology_allowed = false;
    egress_policy_ref = egress_prefix input.egress_policy_prefix ++ ("." ++ i.business_action);
    audit_class = "commercial_transaction";
    retention_class = "order_to_cash";
    result_contract_ids = i.result_contracts;
  }

  -- `Contracts`
  unfoldable pub pack_contracts : ManifestInput → List Contract
  unfolding contract_of
  pack_contracts input = map (contract_of input) interactions

  -- `Manifest`
  unfoldable pub pack_manifest : ManifestInput → Manifest
  unfolding pack_contracts
  pack_manifest input = record {
    schema_version = schema_version;
    tenant_id = trim_space input.tenant_id;
    manifest_id = trim_space input.manifest_id;
    issued_at_ms = input.issued_at_ms;
    expires_at_ms = input.expires_at_ms;
    catalog_version = catalog_version;
    signing_key_id = trim_space input.signing_key_id;
    contracts = pack_contracts input;
    manifest_hash_sha256 = "";
    signature = empty_signature;
  }

  -- The guard on the narrowed action.
  unfoldable pub is_narrowed : ActionContract → Bool
  is_narrowed a = not (
      not (a.action == action_open_federation_transaction)
      || not (a.facade_method == facade_open_federation_transaction)
      || not a.idempotency_required
      || a.private_topology_allowed)

  -- `ValidateGatewayExchangePayload` from the look-up on.
  unfoldable pub validate_for :
      Option Interaction → PayloadValidationInput → Result PayloadError (Unit {0})
  unfolding is_narrowed
  validate_for none input = err not_in_pack
  validate_for (some i) input =
      if not (input.contract.contract_version == contract_version)
      then err version_unsupported
      else if not
          (input.contract.payload_schema_hash_sha256 == payload_schema_hash pack i.contract_id)
      then err schema_mismatch
      else if not (is_narrowed input.action)
      then err not_narrowed
      else validate_payload pack i.contract_id input.payload

  -- `ValidateGatewayExchangePayload`
  unfoldable pub validate_gateway_exchange_payload :
      PayloadValidationInput → Result PayloadError (Unit {0})
  unfolding validate_for
  validate_gateway_exchange_payload input =
      validate_for (interaction_by_contract_id input.contract.contract_id) input
