-- ===== src/ContractApproval/Normal.antt =====
-- contracts/contractapproval/approval.go: normalisation. `normalizeApprovalRecord` writes the contracts
-- in place, where its caller sees them; here it returns the new record only.
use Prim.Native.String.{◌++◌}
use xx_federation_contracts.Base.{String, Bool, ◌&&◌, List, [], ◌∷◌, ◌==◌, if◌then◌else◌, any}
use xx_federation_contracts.Base.Maps.{Map, lookup, or_else}
use xx_federation_contracts.Base.Text.{trim_space}
use xx_federation_contracts.Base.Sort.{sort}
use xx_federation_contracts.Base.Slices.{less_text, normalize_strings}
use xx_federation_contracts.Exchange.Types.{ContractRef}
use xx_federation_contracts.ContractManifest.Types.{Contract, Manifest}
use xx_federation_contracts.ContractApproval.Types.{
  ContractPin, ApprovalRecord, PartnerPin, PinInput, state_pending_approval,
}

unfoldable pub normalize_contract_pin : ContractPin → ContractPin
normalize_contract_pin pin = record {
  contract_id = trim_space pin.contract_id;
  contract_version = trim_space pin.contract_version;
  payload_schema_hash_sha256 = trim_space pin.payload_schema_hash_sha256;
  service_catalog_id = trim_space pin.service_catalog_id;
  action = trim_space pin.action;
  service_catalog_action = trim_space pin.service_catalog_action;
}

-- The text by which pins are ordered.
abbrev pub contract_pin_key : ContractPin → String
contract_pin_key p = p.contract_id ++ ("\0" ++ (p.contract_version ++ ("\0" ++ p.action)))

abbrev pub less_pin : ContractPin → ContractPin → Bool
less_pin a b = less_text (contract_pin_key a) (contract_pin_key b)

unfoldable pub normalize_each_pin : List ContractPin → List ContractPin
normalize_each_pin [] = []
normalize_each_pin (p ∷ ps) = normalize_contract_pin p ∷ normalize_each_pin ps

unfoldable pub normalize_pins : List ContractPin → List ContractPin
normalize_pins pins = sort less_pin (normalize_each_pin pins)

-- The state, where an empty one is pending.
unfoldable pub state_or_pending : String → String
state_or_pending state = if state == "" then state_pending_approval else state

-- `normalizeApprovalRecord`; `normalizeStrings` is the function of contractmanifest.
unfoldable pub normalize_approval_record : ApprovalRecord → ApprovalRecord
unfolding normalize_pins
normalize_approval_record r = record r {
  tenant_id = trim_space r.tenant_id;
  catalog_version = trim_space r.catalog_version;
  pack_version = trim_space r.pack_version;
  manifest_id = trim_space r.manifest_id;
  manifest_hash_sha256 = trim_space r.manifest_hash_sha256;
  state = state_or_pending (trim_space r.state);
  allowed_partner_link_ids = normalize_strings r.allowed_partner_link_ids;
  approved_by = trim_space r.approved_by;
  created_by = trim_space r.created_by;
  audit_binding_hash_sha256 = trim_space r.audit_binding_hash_sha256;
  contracts = normalize_pins r.contracts;
}

unfoldable pub normalize_pin_input : PinInput → PinInput
normalize_pin_input i = record i {
  tenant_id = trim_space i.tenant_id;
  partner_link_id = trim_space i.partner_link_id;
  catalog_version = trim_space i.catalog_version;
  pack_version = trim_space i.pack_version;
  manifest_hash_sha256 = trim_space i.manifest_hash_sha256;
  pinned_by = trim_space i.pinned_by;
  reason = trim_space i.reason;
}

unfoldable pub normalize_partner_pin : PartnerPin → PartnerPin
normalize_partner_pin p = record p {
  tenant_id = trim_space p.tenant_id;
  partner_link_id = trim_space p.partner_link_id;
  catalog_version = trim_space p.catalog_version;
  pack_version = trim_space p.pack_version;
  manifest_hash_sha256 = trim_space p.manifest_hash_sha256;
  previous_pack_version = trim_space p.previous_pack_version;
  previous_manifest_hash_sha256 = trim_space p.previous_manifest_hash_sha256;
  pinned_by = trim_space p.pinned_by;
  reason = trim_space p.reason;
  audit_binding_hash_sha256 = trim_space p.audit_binding_hash_sha256;
}

-- `containsString`
unfoldable pub contains_string : List String → String → Bool
contains_string values needle = any (λ value. trim_space value == trim_space needle) values

-- `pinKey`
unfoldable pub pin_key : String → String → String → String
pin_key tenant_id partner_link_id catalog_version =
    trim_space tenant_id
    ++ ("\0" ++ (trim_space partner_link_id ++ ("\0" ++ trim_space catalog_version)))

-- `contractPinned`
unfoldable pub contract_pinned : List ContractPin → ContractRef → String → Bool
contract_pinned pins ref action =
    any
      (λ pin.
        pin.contract_id == trim_space ref.contract_id
        && pin.contract_version == trim_space ref.contract_version
        && pin.payload_schema_hash_sha256 == trim_space ref.payload_schema_hash_sha256
        && pin.action == trim_space action)
      pins

-- The loop of `contractPinsFromManifest`.
unfoldable pub each_pin : Map String → Map String → List Contract → List ContractPin
each_pin ids actions [] = []
each_pin ids actions (contract ∷ contracts) =
    record {
      contract_id = trim_space contract.contract_id;
      contract_version = trim_space contract.contract_version;
      payload_schema_hash_sha256 = trim_space contract.payload_schema_hash_sha256;
      service_catalog_id = trim_space (or_else "" (lookup contract.contract_id ids));
      action = trim_space contract.action;
      service_catalog_action = trim_space (or_else "" (lookup contract.contract_id actions));
    }
    ∷ each_pin ids actions contracts

-- `contractPinsFromManifest`
unfoldable pub contract_pins_from_manifest : Manifest → Map String → Map String → List ContractPin
contract_pins_from_manifest manifest ids actions =
    sort less_pin (each_pin ids actions manifest.contracts)
