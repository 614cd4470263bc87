-- ===== src/ContractManifest/Cache/Resolved.antt =====
-- contracts/contractmanifest/manifest.go: what `ResolveManifest` returns, against what the gateway of
-- contracts/exchange relies on.
use mathlib.Core.List.{Memᴰ}
use xx_federation_contracts.Base.{
  String, eq_iff, sym, subst, ◌≡◌, refl, ap, ◌∙◌, Bool, true, false, ◌&&◌, List, [], ◌∷◌, Option,
  none, some, ◌==◌, inl, inr, Bool-cases, arith,
}
use xx_federation_contracts.Base.Int.{ℤ, leb_ℤ}
use xx_federation_contracts.Base.Maps.{lookup, or_else, Entries-lookup}
use xx_federation_contracts.Base.Exec.{Result, value_or, ok, err}
use xx_federation_contracts.Exchange.Names.{payload_encoding_json}
use xx_federation_contracts.Exchange.Types.{ContractRef, ActionContract}
use xx_federation_contracts.Exchange.Types
use xx_federation_contracts.Exchange.Session.{
  normalize_contract_ref, manifest_matches, allowed_facade_method,
}
use xx_federation_contracts.ContractManifest.Types.{
  Contract, Manifest, Crypto, ManifestError, elements,
}
use xx_federation_contracts.ContractManifest.Normal.{normalize_manifest}
use xx_federation_contracts.ContractManifest.Shape.{facade_for_action, expected_method_scope}
use xx_federation_contracts.ContractManifest.Shape.Valid.{IsAgreed, facade_for_action-IsAgreed}
use xx_federation_contracts.ContractManifest.Signing.{Keyring, verify, effective_now_ms}
use xx_federation_contracts.ContractManifest.Signing.Accepted.{IsAuthentic, verify_sound}
use xx_federation_contracts.ContractManifest.Cache.{
  MemoryCache, new_memory_cache, now, to_exchange_action, find_contract, exchange_manifest, grant,
  resolved, grant_verified, exchange_action, resolve_entry, resolve_manifest,
}
use xx_federation_contracts.ContractManifest.Cache.Stored.{
  IsVerified, IsSound, put_all, put_all_new-IsSound,
}

abbrev named : ContractRef → Contract → Bool
named ref c = c.contract_id == ref.contract_id && c.contract_version == ref.contract_version

module _ (crypto : Crypto) where
  -- The exchange manifest of one contract of a stored manifest, field by field, with one action whose
  -- facade method and mutation are those of the contract's action.
  abbrev pub IsOfferOf : Manifest → Contract → Types.Manifest → Type 0
  IsOfferOf stored contract m =
      (facade : String) × (mutating : Bool) × (facade_for_action contract.action
        ≡ some (facade, mutating))
      × (allowed_facade_method facade ≡ true)
      × (m ≡ record {
        tenant_id = stored.tenant_id;
        manifest_id = stored.manifest_id;
        catalog_version = stored.catalog_version;
        contract_id = contract.contract_id;
        contract_version = contract.contract_version;
        manifest_hash_sha256 = stored.manifest_hash_sha256;
        payload_schema_hash_sha256 = contract.payload_schema_hash_sha256;
        expires_at_ms = stored.expires_at_ms;
        revoked = false;
        actions =
            (
              contract.action,
              record {
                action = contract.action;
                service_catalog_action = contract.service_catalog_action;
                facade_method = facade;
                mutating = mutating;
                idempotency_required = contract.requires_idempotency;
                payload_encoding = payload_encoding_json;
                max_payload_bytes = contract.max_payload_bytes;
                private_topology_allowed = contract.private_topology_allowed;
                allowed_partner_link_ids = elements contract.allowed_partner_link_ids;
              },
            )
            ∷ [];
      })

  -- What the gateway relies on, of what the cache resolves for a reference: it is the manifest that
  -- the reference names, not revoked and not expired, and it is the offer of a contract of a manifest
  -- that stands in the cache under the reference's hash and is authentic now.
  abbrev pub IsResolved : MemoryCache → ContractRef → ℤ → Types.Manifest → Type 0
  IsResolved cache ref now_ms m =
      (manifest_matches m ref ≡ true)
      × (m.revoked ≡ false)
      × (leb_ℤ m.expires_at_ms now_ms ≡ false)
      × ((stored : Manifest) × (contract : Contract) × (lookup ref.manifest_hash_sha256
              cache.manifests
            ≡ some stored)
          × IsAuthentic crypto (normalize_manifest stored) cache.keyring now_ms
          × Memᴰ contract stored.contracts
          × IsOfferOf stored contract m)

  find_contract-named :
      (cs : List Contract) (ref : ContractRef) (c : Contract)
      → find_contract cs ref ≡ some c
      → named ref c ≡ true
  unfolding find_contract
  find_contract-named [] ref c e = ground arith
  find_contract-named (d ∷ cs) ref c e = elim (Bool-cases (named ref d)) [
    | inl same ↦ subst (λ x. named ref (or_else d x) ≡ true) (taken same ∙ e) same
    | inr other ↦ find_contract-named cs ref c (skipped other ∙ e)
  ]
    where
      taken : (named ref d) ≡ true → some d ≡ find_contract (d ∷ cs) ref
      taken same = rw same refl

      skipped : (named ref d) ≡ false → find_contract cs ref ≡ find_contract (d ∷ cs) ref
      skipped other = rw other refl

  find_contract-Mem :
      (cs : List Contract) (ref : ContractRef) (c : Contract)
      → find_contract cs ref ≡ some c
      → Memᴰ c cs
  unfolding find_contract
  find_contract-Mem [] ref c e = ground arith
  find_contract-Mem (d ∷ cs) ref c e = elim (Bool-cases (named ref d)) [
    | inl same ↦ Memᴰ.head (ground (arith, e, same))
    | inr other ↦ Memᴰ.tail (find_contract-Mem cs ref c (ground (arith, e, other)))
  ]

  resolved-IsOfferOf :
      (manifest : Manifest) (contract : Contract) (facade : Option (String × Bool))
      (m : Types.Manifest)
      → facade_for_action contract.action ≡ facade
      → IsAgreed facade (expected_method_scope contract.action)
      → resolved manifest contract (exchange_action contract facade) ≡ ok m
      → IsOfferOf manifest contract m
  unfolding resolved exchange_action exchange_manifest
  resolved-IsOfferOf manifest contract none m given agreed e = ground arith
  resolved-IsOfferOf manifest contract (some (facade, mutating)) m given (filled, allowed) e =
      (facade, mutating, given, allowed, sym (ap (value_or m) e))

  -- An offer for a reference, by a contract of the manifest.
  abbrev IsGranted : Manifest → ContractRef → Types.Manifest → Type 0
  IsGranted manifest ref m =
      (contract : Contract) × (named ref contract ≡ true)
      × ((contract.payload_schema_hash_sha256 == ref.payload_schema_hash_sha256) ≡ true)
      × Memᴰ contract manifest.contracts
      × IsOfferOf manifest contract m

  grant_sound :
      (manifest : Manifest) (ref : ContractRef) (found : Option Contract) (m : Types.Manifest)
      → ((c : Contract) → found ≡ some c → (named ref c ≡ true) × Memᴰ c manifest.contracts)
      → grant manifest ref found ≡ ok m
      → IsGranted manifest ref m
  unfolding grant to_exchange_action
  grant_sound manifest ref none m names e = ground arith
  grant_sound manifest ref (some contract) m names e = (
    contract,
    (names contract refl).0,
    ground arith,
    (names contract refl).1,
    resolved-IsOfferOf manifest contract (facade_for_action contract.action) m refl
        (facade_for_action-IsAgreed contract.action) (ground arith),
  )

  granted-IsResolved :
      (cache : MemoryCache) (ref : ContractRef) (now_ms : ℤ) (stored : Manifest)
      (m : Types.Manifest)
      → lookup ref.manifest_hash_sha256 cache.manifests ≡ some stored
      → ref.manifest_hash_sha256 ≡ stored.manifest_hash_sha256
      → IsAuthentic crypto (normalize_manifest stored) cache.keyring now_ms
      → IsGranted stored ref m
      → IsResolved cache ref now_ms m
  unfolding manifest_matches normalize_manifest
  granted-IsResolved cache ref now_ms stored m found keyed authentic
        (contract, names, same, member, (facade, mutating, given, allowed, e)) =
      (
        ap (λ x. manifest_matches x ref) e
            ∙ ground (arith, eq_iff stored.manifest_hash_sha256 ref.manifest_hash_sha256),
        ap (λ x. x.revoked) e,
        ap (λ x. leb_ℤ x.expires_at_ms now_ms) e ∙ authentic.1,
        (stored, contract, found, authentic, member, (facade, mutating, given, allowed, e)),
      )

  grant_verified_sound :
      (cache : MemoryCache) (ref : ContractRef) (clock now_ms : ℤ) (stored : Manifest)
      (m : Types.Manifest) (verdict : Result ManifestError (Unit {0}))
      → lookup ref.manifest_hash_sha256 cache.manifests ≡ some stored
      → ref.manifest_hash_sha256 ≡ stored.manifest_hash_sha256
      → verify crypto stored cache.keyring clock now_ms ≡ verdict
      → grant_verified stored ref verdict ≡ ok m
      → IsResolved cache ref (effective_now_ms clock now_ms) m
  unfolding grant_verified
  grant_verified_sound cache ref clock now_ms stored m (err e) found keyed verified granted =
      ground arith
  grant_verified_sound cache ref clock now_ms stored m (ok u) found keyed verified granted =
      granted-IsResolved cache ref _ stored m found keyed
        (verify_sound crypto stored cache.keyring clock now_ms verified)
        (grant_sound stored ref _ m
          (λ c e. (
            find_contract-named stored.contracts ref c e,
            find_contract-Mem stored.contracts ref c e,
          ))
          granted)

  resolve_entry_sound :
      (cache : MemoryCache) (ref : ContractRef) (clock now_ms : ℤ) (m : Types.Manifest)
      (entry : Option Manifest)
      → IsSound crypto cache
      → lookup ref.manifest_hash_sha256 cache.manifests ≡ entry
      → resolve_entry crypto entry cache.keyring ref now_ms clock ≡ ok m
      → IsResolved cache ref (effective_now_ms clock now_ms) m
  unfolding resolve_entry
  resolve_entry_sound cache ref clock now_ms m none sound found granted = ground arith
  resolve_entry_sound cache ref clock now_ms m (some stored) sound found granted =
      grant_verified_sound cache ref clock now_ms stored m _ found
        (Entries-lookup (IsVerified crypto cache.keyring) ref.manifest_hash_sha256 stored
          cache.manifests found sound).0
        refl granted

  -- From a new cache in which any manifests were put, a manifest that `ResolveManifest` returns
  -- matches the normalised reference, is not revoked and not expired, and comes from an entry that
  -- stands in the cache under the reference's hash and is authentic, under the cache's keyring, at
  -- the time of the resolution: its tenant, identifiers and hash are the entry's, and its one
  -- action has, field by field, the terms of a contract that is among the entry's, by the facade
  -- method of the contract's action, which the gateway allows.
  pub resolve_manifest_sound :
      (keyring : Keyring) (now_ms : Option ℤ) (ms : List (Manifest × ℤ)) (ref : ContractRef)
      (clock : ℤ) (m : Types.Manifest)
      → resolve_manifest crypto
          (put_all crypto now_ms ms (new_memory_cache keyring))
          ref
          now_ms
          clock
        ≡ ok m
      → IsResolved
          (put_all crypto now_ms ms (new_memory_cache keyring))
          (normalize_contract_ref ref)
          (effective_now_ms clock (now now_ms clock))
          m
  unfolding resolve_manifest
  resolve_manifest_sound keyring now_ms ms ref clock m =
      resolve_entry_sound (put_all crypto now_ms ms (new_memory_cache keyring))
        (normalize_contract_ref ref) clock (now now_ms clock) m _
        (put_all_new-IsSound crypto keyring now_ms ms) refl
