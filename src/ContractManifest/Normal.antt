-- ===== src/ContractManifest/Normal.antt =====
-- contracts/contractmanifest/manifest.go: normalisation. The source copies the contracts first, so
-- that it changes nothing of its caller's.
pub mod Settled
use Prim.Native.String.{◌++◌}
use xx_federation_contracts.Base.{String, Bool, List, [], ◌∷◌}
use xx_federation_contracts.Base.Text.{trim_space}
use xx_federation_contracts.Base.Sort.{sort}
use xx_federation_contracts.Base.Slices.{less_text, normalize_strings}
use xx_federation_contracts.ContractManifest.Types.{Contract, Manifest, Slice, nil_slice, made}

-- `normalizeStringSlice`: a slice without elements becomes nil, any other one is made anew, and may
-- lose all its elements.
unfoldable pub normalize_string_slice : Slice → Slice
normalize_string_slice nil_slice = nil_slice
normalize_string_slice (made []) = nil_slice
normalize_string_slice (made (v ∷ vs)) = made (normalize_strings (v ∷ vs))

unfoldable pub normalize_contract : Contract → Contract
normalize_contract contract = record contract {
  contract_id = trim_space contract.contract_id;
  contract_version = trim_space contract.contract_version;
  display_name = trim_space contract.display_name;
  action = trim_space contract.action;
  service_catalog_action = trim_space contract.service_catalog_action;
  payload_schema_ref = trim_space contract.payload_schema_ref;
  payload_schema_hash_sha256 = trim_space contract.payload_schema_hash_sha256;
  egress_policy_ref = trim_space contract.egress_policy_ref;
  audit_class = trim_space contract.audit_class;
  retention_class = trim_space contract.retention_class;
  allowed_partner_link_ids = normalize_string_slice contract.allowed_partner_link_ids;
  allowed_gateway_method_scopes = normalize_string_slice contract.allowed_gateway_method_scopes;
  result_contract_ids = normalize_strings contract.result_contract_ids;
}

-- The text by which contracts are ordered and told apart.
abbrev pub contract_key : Contract → String
contract_key c = c.contract_id ++ ("\0" ++ (c.contract_version ++ ("\0" ++ c.action)))

abbrev pub less_contract : Contract → Contract → Bool
less_contract a b = less_text (contract_key a) (contract_key b)

-- `manifest.Contracts[i] = normalizeContract(manifest.Contracts[i])` for each index.
unfoldable pub normalize_each : List Contract → List Contract
normalize_each [] = []
normalize_each (c ∷ cs) = normalize_contract c ∷ normalize_each cs

unfoldable pub normalize_contracts : List Contract → List Contract
normalize_contracts contracts = sort less_contract (normalize_each contracts)

unfoldable pub normalize_manifest : Manifest → Manifest
normalize_manifest manifest = record manifest {
  schema_version = trim_space manifest.schema_version;
  tenant_id = trim_space manifest.tenant_id;
  manifest_id = trim_space manifest.manifest_id;
  catalog_version = trim_space manifest.catalog_version;
  signing_key_id = trim_space manifest.signing_key_id;
  manifest_hash_sha256 = trim_space manifest.manifest_hash_sha256;
  signature = record {
    algorithm = trim_space manifest.signature.algorithm;
    signature_b64 = trim_space manifest.signature.signature_b64;
  };
  contracts = normalize_contracts manifest.contracts;
}
