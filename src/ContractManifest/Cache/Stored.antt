-- ===== src/ContractManifest/Cache/Stored.antt =====
-- contracts/contractmanifest/manifest.go: what `PutVerified` lets into the cache.
use xx_federation_contracts.Base.{String, subst, ◌≡◌, refl, List, [], ◌∷◌, Option}
use xx_federation_contracts.Base.Int.{ℤ}
use xx_federation_contracts.Base.Maps.{Entries, Entries-insert}
use xx_federation_contracts.Base.Exec.{Result, ok, err}
use xx_federation_contracts.ContractManifest.Types.{Manifest, Crypto, ManifestError}
use xx_federation_contracts.ContractManifest.Normal.{normalize_manifest}
use xx_federation_contracts.ContractManifest.Normal.Settled.{normalize_manifest_idem_of_twice}
use xx_federation_contracts.ContractManifest.Signing.{Keyring, effective_now_ms}
use xx_federation_contracts.ContractManifest.Signing.Accepted.{IsAuthentic, verify_sound}
use xx_federation_contracts.ContractManifest.Cache.{
  MemoryCache, new_memory_cache, now, store, put_verified,
}

module _ (crypto : Crypto) where
  -- An entry: a normalised manifest under its own hash that was authentic at some time.
  abbrev pub IsVerified : Keyring → String → Manifest → Type 0
  IsVerified keyring key m =
      (key ≡ m.manifest_hash_sha256)
      × (normalize_manifest m ≡ m)
      × ((now_ms : ℤ) × IsAuthentic crypto m keyring now_ms)

  abbrev pub IsSound : MemoryCache → Type 0
  IsSound cache = Entries (IsVerified cache.keyring) cache.manifests

  -- Manifests put one after the other, each at the clock's reading of its moment, errors dropped.
  abbrev pub put_all : Option ℤ → List (Manifest × ℤ) → MemoryCache → MemoryCache
  put_all now_ms [] cache = cache
  put_all now_ms ((m, clock) ∷ ms) cache =
      put_all now_ms ms (put_verified crypto m now_ms clock cache).1

  store-IsSound :
      (m : Manifest) (cache : MemoryCache) (verdict : Result ManifestError (Unit {0}))
      → (verdict ≡ ok tt → IsVerified cache.keyring m.manifest_hash_sha256 m)
      → IsSound cache
      → IsSound ((store m verdict cache).1)
  unfolding store
  store-IsSound m cache (err e) verified sound = sound
  store-IsSound m cache (ok u) verified sound =
      Entries-insert (IsVerified cache.keyring) m.manifest_hash_sha256 m cache.manifests
        (verified refl) sound

  put_verified-IsSound :
      (m : Manifest) (now_ms : Option ℤ) (clock : ℤ) (cache : MemoryCache)
      → IsSound cache
      → IsSound ((put_verified crypto m now_ms clock cache).1)
  unfolding put_verified
  put_verified-IsSound m now_ms clock cache sound =
      let n = normalize_manifest m in
      store-IsSound n cache _
        (λ accepted.
          let authentic = verify_sound crypto n cache.keyring clock (now now_ms clock) accepted in
          let normal = normalize_manifest_idem_of_twice m authentic.0 in
          (
            refl,
            normal,
            (
              effective_now_ms clock (now now_ms clock),
              subst
                  (λ x.
                    IsAuthentic crypto x cache.keyring (effective_now_ms clock (now now_ms clock)))
                  normal authentic,
            ),
          ))
        sound

  put_all-IsSound :
      (now_ms : Option ℤ) (ms : List (Manifest × ℤ)) (cache : MemoryCache)
      → IsSound cache
      → IsSound (put_all now_ms ms cache)
  put_all-IsSound now_ms [] cache sound = sound
  put_all-IsSound now_ms ((m, clock) ∷ ms) cache sound =
      put_all-IsSound now_ms ms _ (put_verified-IsSound m now_ms clock cache sound)

  -- Whatever is put in a new cache, at whatever readings of the clock: each of its entries is a
  -- normalised manifest under its own hash, which was authentic, under the cache's keyring, at
  -- some time.
  pub put_all_new-IsSound :
      (keyring : Keyring) (now_ms : Option ℤ) (ms : List (Manifest × ℤ))
      → IsSound (put_all now_ms ms (new_memory_cache keyring))
  unfolding new_memory_cache
  put_all_new-IsSound keyring now_ms ms = put_all-IsSound now_ms ms _ tt
