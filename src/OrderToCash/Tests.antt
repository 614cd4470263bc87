-- ===== src/OrderToCash/Tests.antt =====
-- contracts/contractpacks/ordertocash/pack.go: a quote, its contract and the pack's manifest.

use xx_federation_contracts.Base.{◌≡◌, refl, true, false, [], ◌∷◌, none, some, ◌↔◌, if◌then◌else◌}
use xx_federation_contracts.Base.Int.{pos}
use xx_federation_contracts.Base.Bytes.{same_bytes}
use xx_federation_contracts.Base.Codes.{codes}
use xx_federation_contracts.Base.Exec.{ok}
use xx_federation_contracts.Base.Sort.{sort, insert}
use xx_federation_contracts.Base.Slices.{normalize_strings, compact}
use xx_federation_contracts.Base.Text.{trim_space, trim_left, trim_right, is_space}
use xx_federation_contracts.Exchange.Types.{ContractRef, ActionContract}
use xx_federation_contracts.Exchange.Topology.{
  Fields, bool, text, array, object, nil, cons, end, field, private_topology_value,
  private_topology_string, to_lower, contains_text, has_prefix, same_codes, drop_separators,
}
use xx_federation_contracts.Exchange.Payload.{fold}
use xx_federation_contracts.Base.Cut.{cut, contains}
use xx_federation_contracts.ContractManifest.Normal.{normalize_manifest}
use xx_federation_contracts.ContractManifest.Shape.{validate_manifest_shape}
use xx_federation_contracts.ContractManifest.Cache.{to_exchange_action}
use xx_federation_contracts.OrderToCash.Interactions.{quote}
use xx_federation_contracts.OrderToCash.Hosts.{
  Network, private_value, private_string, candidate_host, bracketed, plain_host, trim_brackets,
  trim_brackets_left, trim_brackets_right, private_host, private_name, has_suffix, topology_key,
}
use xx_federation_contracts.OrderToCash.Hosts.Stricter.{private_value-private_topology_value}
use xx_federation_contracts.OrderToCash.Payload.{
  Pack, contract_version, interaction_by_contract_id, find_interaction, payload_schema_hash,
  validate_payload, validate_fields, check_required, check_properties, check_property, get,
  string_value, is_closed, json_value_matches_type,
}
use xx_federation_contracts.OrderToCash.Payload.Accepted.{IsAccepted, validate_payload_iff}
use xx_federation_contracts.OrderToCash.Manifest.{
  ManifestInput, contract_of, pack_manifest, validate_gateway_exchange_payload,
}
use xx_federation_contracts.OrderToCash.Manifest.Shaped.{pack_manifest-shaped}
use xx_federation_contracts.OrderToCash.Manifest.Resolved.{contract_of-validate}

abbrev network : Network
network = record {
  url_host = λ value. none;
  split_host_port = λ host. none;
  is_private_ip = λ host. false;
  ipv4_matches = λ value. [];
}

abbrev schema : Fields
schema = field "required" (array (cons (text "transaction_kind") (cons (text "subject") nil))) (
    field "properties"
      (object (
        field "transaction_kind" (object (field "type" (text "string") end))
          (field "subject" (object (field "type" (text "string") end)) end)))
      (field "additionalProperties" (bool false) end))

abbrev quoted : Fields
quoted =
    field "transaction_kind" (text "order_to_cash.quote") (field "subject" (text "five bolts") end)

-- A decoder that reads one payload, and all else as the schema.
abbrev pack : Pack
pack = record {
  sha256 = λ m. 1 ∷ m;
  utf8 = codes;
  json_object = λ bytes. some (if same_bytes bytes (7 ∷ []) then quoted else schema);
  is_integral = λ n. true;
  network = network;
}

validate_payload_iff_example :
    (validate_payload pack "order_to_cash.quote.response.v1" (7 ∷ []) ≡ ok tt)
    ↔ IsAccepted pack "order_to_cash.quote.response.v1" (7 ∷ [])
validate_payload_iff_example = validate_payload_iff pack "order_to_cash.quote.response.v1" (7 ∷ [])

-- The payload is accepted.
validate_payload_test : validate_payload pack "order_to_cash.quote.response.v1" (7 ∷ []) ≡ ok tt
unfolding validate_payload interaction_by_contract_id find_interaction trim_space trim_left
    trim_right is_space validate_fields check_required check_properties check_property get
    string_value is_closed json_value_matches_type same_bytes private_value private_string
    topology_key private_topology_string to_lower contains_text has_prefix candidate_host bracketed
    plain_host trim_brackets trim_brackets_left trim_brackets_right cut contains private_host
    private_name has_suffix fold same_codes drop_separators codes
validate_payload_test = refl

quoted_passes : private_value network (object quoted) ≡ false
unfolding private_value private_string topology_key to_lower contains_text has_prefix candidate_host
    bracketed plain_host trim_brackets trim_brackets_left trim_brackets_right cut contains
    private_host private_name has_suffix fold same_codes drop_separators codes trim_space trim_left
    trim_right is_space
quoted_passes = refl

private_value-private_topology_value_example : private_topology_value (object quoted) ≡ false
private_value-private_topology_value_example =
    private_value-private_topology_value network (object quoted) quoted_passes

abbrev input : ManifestInput
input = record {
  tenant_id = " t";
  manifest_id = "m";
  issued_at_ms = pos 1;
  expires_at_ms = pos 100;
  signing_key_id = "k";
  partner_link_ids = "link" ∷ [];
  max_payload_bytes = pos 0;
  replay_window_secs = pos 60;
  egress_policy_prefix = "";
}

pack_manifest-shaped_example :
    validate_manifest_shape (normalize_manifest (pack_manifest pack input)) ≡ true
unfolding normalize_strings compact sort insert trim_space trim_left trim_right is_space
pack_manifest-shaped_example =
    pack_manifest-shaped pack (λ m. refl) input refl refl refl refl refl refl

abbrev reference : ContractRef
reference = record {
  contract_id = "order_to_cash.quote.response.v1";
  contract_version = contract_version;
  manifest_hash_sha256 = "";
  payload_schema_hash_sha256 = payload_schema_hash pack "order_to_cash.quote.response.v1";
}

quote_found : interaction_by_contract_id "order_to_cash.quote.response.v1" ≡ some quote
unfolding interaction_by_contract_id find_interaction trim_space trim_left trim_right is_space
quote_found = refl

contract_of-validate_example :
    (action : ActionContract) × (to_exchange_action (contract_of pack input quote) ≡ ok action)
    × (validate_gateway_exchange_payload pack
          (record { contract = reference; action = action; payload = 7 ∷ [] })
        ≡ validate_payload pack "order_to_cash.quote.response.v1" (7 ∷ []))
unfolding contract_of
contract_of-validate_example =
    contract_of-validate pack input quote reference (7 ∷ []) quote_found (refl, refl, refl)
