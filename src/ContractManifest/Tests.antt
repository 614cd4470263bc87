-- ===== src/ContractManifest/Tests.antt =====
-- contracts/contractmanifest: a manifest of one contract, signed, verified, cached and resolved.
use Prim.Native.String.{len}
use xx_federation_contracts.Base.{
  ℕ, zero, suc, String, ◌≡◌, refl, true, false, List, [], ◌∷◌, none, some, map,
}
use xx_federation_contracts.Base.Int.{pos}
use xx_federation_contracts.Base.Hex.{hex}
use xx_federation_contracts.Base.Maps.{lookup, insert}
use xx_federation_contracts.Base.Text.{trim_space}
use xx_federation_contracts.Base.Exec.{ok}
use xx_federation_contracts.Base.Sort.{sort}
use xx_federation_contracts.Base.Slices.{normalize_strings}
use xx_federation_contracts.Exchange.Names.{
  action_get_service_catalog_view, facade_get_service_catalog_view, payload_encoding_json,
}
use xx_federation_contracts.Exchange.Types.{ContractRef, ActionContract}
use xx_federation_contracts.Exchange.Types
use xx_federation_contracts.Exchange.Payload.{equal_fold}
use xx_federation_contracts.Exchange.Session.{normalize_contract_ref}
use xx_federation_contracts.ContractManifest.Types.{
  empty_signature, Contract, Manifest, Crypto, KeyPair, made, elements,
}
use xx_federation_contracts.ContractManifest.Normal.{
  normalize_contract, normalize_each, normalize_contracts, normalize_manifest,
  normalize_string_slice,
}
use xx_federation_contracts.ContractManifest.Shape.{
  schema_version, validate_manifest_shape, validate_contract, facade_for_action,
  expected_method_scope,
}
use xx_federation_contracts.ContractManifest.Shape.Valid.{IsAgreed, facade_for_action-IsAgreed}
use xx_federation_contracts.ContractManifest.Signing.{
  Keyring, effective_now_ms, compute_manifest_hash, verify, sign, stamp,
}
use xx_federation_contracts.ContractManifest.Signing.Accepted.{IsAuthentic, verify_sound}
use xx_federation_contracts.ContractManifest.Signing.RoundTrip.{sign-verify, accepted_stamp}
use xx_federation_contracts.ContractManifest.Cache.{
  find_contract, to_exchange_action, exchange_action, exchange_manifest, put_verified, MemoryCache,
  new_memory_cache, now, resolve_manifest,
}
use xx_federation_contracts.ContractManifest.Cache.Stored.{IsSound, put_all, put_all_new-IsSound}
use xx_federation_contracts.ContractManifest.Cache.Resolved.{IsResolved, resolve_manifest_sound}

abbrev zeros : ℕ → List ℕ
zeros zero = []
zeros (suc n) = 0 ∷ zeros n

abbrev crypto : Crypto
crypto = record {
  marshal = λ m. [];
  sha256 = λ bytes. zeros 32;
  utf8 = λ text. [];
  base64_encode = λ bytes. "AA==";
  base64_decode = λ text. some (zeros 64);
  sign = λ key bytes. zeros 64;
  verify = λ key bytes signature. true;
}

keys : KeyPair crypto (zeros 64) (zeros 32)
unfolding trim_space
keys = record {
  private_size = refl;
  public_size = refl;
  sign_size = λ m. refl;
  sign_verifies = λ m. refl;
  encode_trimmed = λ m. refl;
  encode_filled = λ m. refl;
  decode_encode = λ m. refl;
}

abbrev contract : Contract
contract = record {
  contract_id = "c";
  contract_version = "1";
  display_name = "";
  action = action_get_service_catalog_view;
  service_catalog_action = "";
  payload_schema_ref = "ref";
  payload_schema_hash_sha256 = "bb";
  max_payload_bytes = pos 100;
  requires_idempotency = false;
  replay_window_seconds = pos 60;
  allowed_partner_link_ids = made ("link" ∷ []);
  allowed_gateway_method_scopes = made ("federation.get_service_catalog_view" ∷ []);
  private_topology_allowed = false;
  egress_policy_ref = "egress";
  audit_class = "a";
  retention_class = "r";
  result_contract_ids = [];
}

abbrev manifest : Manifest
manifest = record {
  schema_version = schema_version;
  tenant_id = "t";
  manifest_id = "m";
  issued_at_ms = pos 1;
  expires_at_ms = pos 1000;
  catalog_version = "1";
  signing_key_id = "key";
  contracts = contract ∷ [];
  manifest_hash_sha256 = "";
  signature = empty_signature;
}

abbrev keyring : Keyring
keyring = ("key", zeros 32) ∷ []

manifest_shaped : validate_manifest_shape (normalize_manifest manifest) ≡ true
unfolding normalize_manifest validate_manifest_shape trim_space normalize_string_slice elements
    normalize_strings normalize_contracts sort normalize_each validate_contract normalize_contract
manifest_shaped = refl

facade_for_action-IsAgreed_example :
    IsAgreed
      (facade_for_action action_get_service_catalog_view)
      (expected_method_scope action_get_service_catalog_view)
facade_for_action-IsAgreed_example = facade_for_action-IsAgreed action_get_service_catalog_view

sign-verify_example :
    (signed : Manifest) × (sign crypto manifest (zeros 64) ≡ ok signed)
    × (verify crypto signed keyring (pos 5) (pos 10) ≡ ok tt)
unfolding effective_now_ms trim_space lookup
sign-verify_example =
    sign-verify crypto (zeros 64) (zeros 32) keys (λ bytes. refl) manifest keyring (pos 5) (pos 10)
      manifest_shaped refl refl

put_all_new-IsSound_example :
    IsSound crypto (put_all crypto none ((manifest, pos 5) ∷ []) (new_memory_cache keyring))
put_all_new-IsSound_example = put_all_new-IsSound crypto keyring none ((manifest, pos 5) ∷ [])

abbrev signed_manifest : Manifest
signed_manifest = stamp crypto (normalize_manifest manifest) (zeros 64)

signed_verifies : verify crypto signed_manifest keyring (pos 5) (pos 10) ≡ ok tt
unfolding effective_now_ms trim_space lookup
signed_verifies =
    accepted_stamp crypto (zeros 64) (zeros 32) keys (λ bytes. refl) manifest keyring (pos 5)
      (pos 10) manifest_shaped refl refl

verify_sound_example :
    IsAuthentic crypto
      (normalize_manifest signed_manifest)
      keyring
      (effective_now_ms (pos 5) (pos 10))
verify_sound_example = verify_sound crypto signed_manifest keyring (pos 5) (pos 10) signed_verifies

abbrev zeros_text : String
zeros_text = "0000000000000000000000000000000000000000000000000000000000000000"

abbrev reference : ContractRef
reference = record {
  contract_id = "c";
  contract_version = "1";
  manifest_hash_sha256 = zeros_text;
  payload_schema_hash_sha256 = "bb";
}

abbrev catalog_view : ActionContract
catalog_view = record {
  action = action_get_service_catalog_view;
  service_catalog_action = "";
  facade_method = facade_get_service_catalog_view;
  mutating = false;
  idempotency_required = false;
  payload_encoding = payload_encoding_json;
  max_payload_bytes = pos 100;
  private_topology_allowed = false;
  allowed_partner_link_ids = "link" ∷ [];
}

abbrev cache : MemoryCache
cache = put_all crypto none ((signed_manifest, pos 5) ∷ []) (new_memory_cache keyring)

abbrev offer : Types.Manifest
offer = record {
  tenant_id = "t";
  manifest_id = "m";
  catalog_version = "1";
  contract_id = "c";
  contract_version = "1";
  manifest_hash_sha256 = zeros_text;
  payload_schema_hash_sha256 = "bb";
  expires_at_ms = pos 1000;
  revoked = false;
  actions = (action_get_service_catalog_view, catalog_view) ∷ [];
}

cache_resolves : resolve_manifest crypto cache reference none (pos 5) ≡ ok offer
unfolding resolve_manifest put_verified new_memory_cache verify stamp normalize_manifest
    validate_manifest_shape trim_space normalize_string_slice elements normalize_strings
    normalize_contracts sort normalize_each validate_contract normalize_contract lookup
    effective_now_ms now compute_manifest_hash hex equal_fold insert normalize_contract_ref
    find_contract to_exchange_action exchange_action exchange_manifest
cache_resolves = refl

resolve_manifest_sound_example :
    IsResolved crypto cache
      (normalize_contract_ref reference)
      (effective_now_ms (pos 5) (now none (pos 5)))
      offer
resolve_manifest_sound_example =
    resolve_manifest_sound crypto keyring none ((signed_manifest, pos 5) ∷ []) reference (pos 5)
      offer cache_resolves

abbrev second : Contract
second = record contract { contract_id = " dd" }

abbrev two_contracts : Manifest
two_contracts = record manifest { contracts = contract ∷ second ∷ [] }

-- Marshalling that shows the order of the contracts, by the lengths of their identifiers.
abbrev showing : Crypto
showing = record crypto {
  marshal = λ m. map (λ c. len c.contract_id) m.contracts;
  sha256 = λ bytes. bytes;
}

-- The hash is that of the contracts in order, "c" before "dd".
two_contracts_hash : compute_manifest_hash showing two_contracts ≡ "0102"
unfolding compute_manifest_hash normalize_manifest normalize_contracts normalize_each
    normalize_contract trim_space sort insert hex
two_contracts_hash = refl
