-- ===== src/ContractManifest/Signing/Accepted.antt =====
-- contracts/contractmanifest/manifest.go: what a manifest that `Verify` accepts is.
use xx_federation_contracts.Base.{
  ℕ, ◌≡◌, refl, true, false, List, Option, none, some, ◌==◌, length, nat_eq, arith,
}
use xx_federation_contracts.Base.Int.{ℤ, leb_ℤ}
use xx_federation_contracts.Base.Maps.{lookup}
use xx_federation_contracts.Base.Exec.{ok}
use xx_federation_contracts.Exchange.Payload.{equal_fold}
use xx_federation_contracts.ContractManifest.Types.{
  Manifest, Crypto, public_key_size, signature_size,
}
use xx_federation_contracts.ContractManifest.Normal.{normalize_manifest}
use xx_federation_contracts.ContractManifest.Shape.{validate_manifest_shape}
use xx_federation_contracts.ContractManifest.Signing.{
  Keyring, effective_now_ms, compute_manifest_hash, verify, verify_normal, verify_signature,
  verify_decoded, signature_algorithm_ed25519,
}

module _ (crypto : Crypto) where
  -- The signature decodes and verifies, under a key of the keyring, over the manifest's hash.
  abbrev pub IsSigned : Manifest → Keyring → Type 0
  IsSigned m keyring =
      (key : List ℕ) × (lookup m.signing_key_id keyring ≡ some key)
      × (nat_eq (length key) public_key_size ≡ true)
      × ((signature : List ℕ) × (crypto.base64_decode m.signature.signature_b64 ≡ some signature)
          × (nat_eq (length signature) signature_size ≡ true)
          × (crypto.verify key (crypto.utf8 m.manifest_hash_sha256) signature ≡ true))

  -- What a manifest must be to count as verified at a time.
  abbrev pub IsAuthentic : Manifest → Keyring → ℤ → Type 0
  IsAuthentic m keyring now_ms =
      (validate_manifest_shape m ≡ true)
      × (leb_ℤ m.expires_at_ms now_ms ≡ false)
      × (m.signature.algorithm == signature_algorithm_ed25519 ≡ true)
      × (equal_fold (compute_manifest_hash crypto m) m.manifest_hash_sha256 ≡ true)
      × IsSigned m keyring

  verify_decoded_sound :
      (m : Manifest) (keyring : Keyring) (key : List ℕ) (decoded : Option (List ℕ))
      → lookup m.signing_key_id keyring ≡ some key
      → nat_eq (length key) public_key_size ≡ true
      → crypto.base64_decode m.signature.signature_b64 ≡ decoded
      → verify_decoded crypto key decoded m ≡ ok tt
      → IsSigned m keyring
  unfolding verify_decoded
  verify_decoded_sound m keyring key none found sized e accepted = ground arith
  verify_decoded_sound m keyring key (some signature) found sized e accepted =
      (key, found, sized, (signature, e, ground arith, ground arith))

  verify_signature_sound :
      (m : Manifest) (keyring : Keyring) (key : Option (List ℕ))
      → lookup m.signing_key_id keyring ≡ key
      → verify_signature crypto key m ≡ ok tt
      → IsSigned m keyring
  unfolding verify_signature
  verify_signature_sound m keyring none found accepted = ground arith
  verify_signature_sound m keyring (some key) found accepted =
      verify_decoded_sound m keyring key _ found (ground arith) refl (ground arith)

  verify_normal_sound :
      (m : Manifest) (keyring : Keyring) (now_ms : ℤ)
      → verify_normal crypto m keyring now_ms ≡ ok tt
      → IsAuthentic m keyring now_ms
  unfolding verify_normal
  verify_normal_sound m keyring now_ms accepted = (
    ground arith,
    ground arith,
    ground arith,
    ground arith,
    verify_signature_sound m keyring _ refl (ground arith),
  )

  -- A manifest that `Verify` accepts is, after normalisation: of a valid shape, not expired, of the
  -- algorithm ed25519, named by its own hash up to the letters' case, and signed, over that hash,
  -- under the key that the keyring holds for its signing key.
  pub verify_sound :
      (manifest : Manifest) (keyring : Keyring) (clock now_ms : ℤ)
      → verify crypto manifest keyring clock now_ms ≡ ok tt
      → IsAuthentic (normalize_manifest manifest) keyring (effective_now_ms clock now_ms)
  unfolding verify
  verify_sound manifest keyring clock now_ms =
      verify_normal_sound (normalize_manifest manifest) keyring (effective_now_ms clock now_ms)
