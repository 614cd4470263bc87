-- ===== src/ContractManifest/Cache.antt =====
-- contracts/contractmanifest/manifest.go: the cache of verified manifests, which resolves the contract
-- of an envelope for the gateway of contracts/exchange. A nil cache is not modelled.
pub mod Stored
pub mod Resolved
use xx_federation_contracts.Base.{
  String, Bool, true, false, ◌&&◌, not, List, [], ◌∷◌, Option, none, some, ◌==◌, if◌then◌else◌,
}
use xx_federation_contracts.Base.Int.{ℤ}
use xx_federation_contracts.Base.Maps.{lookup, insert}
use xx_federation_contracts.Base.Maps
use xx_federation_contracts.Base.Text.{trim_space}
use xx_federation_contracts.Base.Exec.{Result, ok, err}
use xx_federation_contracts.Exchange.Names.{payload_encoding_json}
use xx_federation_contracts.Exchange.Types.{ContractRef, ActionContract}
use xx_federation_contracts.Exchange.Types
use xx_federation_contracts.Exchange.Session.{normalize_contract_ref}
use xx_federation_contracts.ContractManifest.Types.{
  Contract, Manifest, Crypto, ManifestError, hash_mismatch, invalid, not_found, elements,
}
use xx_federation_contracts.ContractManifest.Normal.{normalize_manifest}
use xx_federation_contracts.ContractManifest.Shape.{facade_for_action}
use xx_federation_contracts.ContractManifest.Signing.{Keyring, verify}

pub record MemoryCache : Type 0 where
  pub keyring : Keyring
  pub manifests : Maps.Map Manifest

abbrev trim_keys : Keyring → Keyring → Keyring
trim_keys [] out = out
trim_keys ((key_id, public_key) ∷ keyring) out =
    trim_keys keyring (insert (trim_space key_id) public_key out)

-- `cloneKeyring`. Where two identifiers trim to the same, the list's later one wins; Go leaves the
-- order open.
unfoldable pub clone_keyring : Keyring → Keyring
clone_keyring keyring = trim_keys keyring []

-- `NewMemoryCache`
unfoldable pub new_memory_cache : Keyring → MemoryCache
unfolding clone_keyring
new_memory_cache keyring = record { keyring = clone_keyring keyring; manifests = [] }

-- `now`: what `nowMS` returns, where it is given, and else the clock.
unfoldable pub now : Option ℤ → ℤ → ℤ
now (some now_ms) clock = now_ms
now none clock = clock

-- `toExchangeAction` from its switch on.
unfoldable pub exchange_action :
    Contract → Option (String × Bool) → Result ManifestError ActionContract
exchange_action contract none = err invalid
exchange_action contract (some (facade_method, mutating)) = ok (record {
  action = contract.action;
  service_catalog_action = contract.service_catalog_action;
  facade_method = facade_method;
  mutating = mutating;
  idempotency_required = contract.requires_idempotency;
  payload_encoding = payload_encoding_json;
  max_payload_bytes = contract.max_payload_bytes;
  private_topology_allowed = contract.private_topology_allowed;
  allowed_partner_link_ids = elements contract.allowed_partner_link_ids;
})

-- `toExchangeAction`
unfoldable pub to_exchange_action : Contract → Result ManifestError ActionContract
to_exchange_action contract = exchange_action contract (facade_for_action contract.action)

-- The loop of `findContract`: the first contract with the identifier and the version.
unfoldable pub find_contract : List Contract → ContractRef → Option Contract
find_contract [] ref = none
find_contract (contract ∷ contracts) ref =
    if contract.contract_id == ref.contract_id && contract.contract_version == ref.contract_version
    then some contract
    else find_contract contracts ref

-- The manifest that `ResolveManifest` returns.
unfoldable pub exchange_manifest : Manifest → Contract → ActionContract → Types.Manifest
exchange_manifest manifest contract action = record {
  tenant_id = manifest.tenant_id;
  manifest_id = manifest.manifest_id;
  catalog_version = manifest.catalog_version;
  contract_id = contract.contract_id;
  contract_version = contract.contract_version;
  manifest_hash_sha256 = manifest.manifest_hash_sha256;
  payload_schema_hash_sha256 = contract.payload_schema_hash_sha256;
  expires_at_ms = manifest.expires_at_ms;
  revoked = false;
  actions = (contract.action, action) ∷ [];
}

-- `ResolveManifest` from the action on.
unfoldable pub resolved :
    Manifest → Contract → Result ManifestError ActionContract → Result ManifestError Types.Manifest
resolved manifest contract (ok action) = ok (exchange_manifest manifest contract action)
resolved manifest contract (err e) = err e

-- `ResolveManifest` from the contract found on.
unfoldable pub grant :
    Manifest → ContractRef → Option Contract → Result ManifestError Types.Manifest
unfolding resolved
grant manifest ref none = err not_found
grant manifest ref (some contract) =
    if not (contract.payload_schema_hash_sha256 == ref.payload_schema_hash_sha256)
    then err hash_mismatch
    else resolved manifest contract (to_exchange_action contract)

-- `PutVerified` from the verification on: the error, if there is one, and the cache after it.
unfoldable pub store :
    Manifest
    → Result ManifestError (Unit {0})
    → MemoryCache
    → Result ManifestError (Unit {0}) × MemoryCache
store m (err e) cache = (err e, cache)
store m (ok _) cache =
    (ok tt, record cache { manifests = insert m.manifest_hash_sha256 m cache.manifests })

-- `ResolveManifest` from the verification on.
unfoldable pub grant_verified :
    Manifest → ContractRef → Result ManifestError (Unit {0}) → Result ManifestError Types.Manifest
unfolding grant
grant_verified manifest ref (err e) = err e
grant_verified manifest ref (ok _) = grant manifest ref (find_contract manifest.contracts ref)

module _ (crypto : Crypto) where
  -- `PutVerified`
  unfoldable pub put_verified :
      Manifest → Option ℤ → ℤ → MemoryCache → Result ManifestError (Unit {0}) × MemoryCache
  unfolding store
  put_verified manifest now_ms clock cache =
      let m = normalize_manifest manifest in
      store m (verify crypto m cache.keyring clock (now now_ms clock)) cache

  -- `ResolveManifest` from the look-up on.
  unfoldable pub resolve_entry :
      Option Manifest → Keyring → ContractRef → ℤ → ℤ → Result ManifestError Types.Manifest
  unfolding grant_verified
  resolve_entry none keyring ref now_ms clock = err not_found
  resolve_entry (some manifest) keyring ref now_ms clock =
      grant_verified manifest ref (verify crypto manifest keyring clock now_ms)

  -- `ResolveManifest`
  unfoldable pub resolve_manifest :
      MemoryCache → ContractRef → Option ℤ → ℤ → Result ManifestError Types.Manifest
  unfolding resolve_entry
  resolve_manifest cache contract_ref now_ms clock =
      let ref = normalize_contract_ref contract_ref in
      resolve_entry (lookup ref.manifest_hash_sha256 cache.manifests) cache.keyring ref
        (now now_ms clock) clock
