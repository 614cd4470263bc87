-- ===== src/ContractManifest/Signing.antt =====
-- contracts/contractmanifest/manifest.go: the hash, the signature and their verification.
pub mod Accepted
pub mod Permuted
pub mod RoundTrip
use xx_federation_contracts.Base.{
  ℕ, String, Bool, true, false, ◌&&◌, ◌||◌, not, List, Option, none, some, ◌==◌, length, nat_eq,
  if◌then◌else◌,
}
use xx_federation_contracts.Base.Int.{ℤ, pos, leb_ℤ, ltb_ℤ}
use xx_federation_contracts.Base.Hex.{hex}
use xx_federation_contracts.Base.Maps.{Map, lookup}
use xx_federation_contracts.Base.Text.{trim_space}
use xx_federation_contracts.Base.Exec.{Result, ok, err}
use xx_federation_contracts.Exchange.Payload.{equal_fold}
use xx_federation_contracts.ContractManifest.Types.{
  Manifest, Signature, empty_signature, Crypto, ManifestError, unsigned, expired, hash_mismatch,
  signature_invalid, invalid, private_key_size, public_key_size, signature_size,
}
use xx_federation_contracts.ContractManifest.Normal.{normalize_manifest}
use xx_federation_contracts.ContractManifest.Shape.{validate_manifest_shape}

abbrev pub signature_algorithm_ed25519 : String
signature_algorithm_ed25519 = "ed25519"

-- `Keyring`: public keys by their ids.
abbrev pub Keyring : Type 0
Keyring = Map (List ℕ)

-- `effectiveNowMS`; `clock` is what `time.Now` reads.
unfoldable pub effective_now_ms : ℤ → ℤ → ℤ
effective_now_ms clock now_ms = if ltb_ℤ (pos 0) now_ms then now_ms else clock

-- The manifest without its hash and signature, which is what is hashed.
abbrev pub blank : Manifest → Manifest
blank manifest = record manifest { manifest_hash_sha256 = ""; signature = empty_signature }

module _ (crypto : Crypto) where
  open crypto use {
    marshal, sha256, utf8, base64_encode, base64_decode, sign as sign_bytes, verify as verify_bytes,
  }

  -- `ComputeManifestHash`. Marshalling a manifest cannot fail.
  unfoldable pub compute_manifest_hash : Manifest → String
  compute_manifest_hash manifest = hex (sha256 (marshal (blank (normalize_manifest manifest))))

  -- The manifest with its hash and the signature of that hash.
  unfoldable pub stamp : Manifest → List ℕ → Manifest
  stamp manifest private_key = record manifest {
    manifest_hash_sha256 = compute_manifest_hash manifest;
    signature = record {
      algorithm = signature_algorithm_ed25519;
      signature_b64 =
          base64_encode (sign_bytes private_key (utf8 (compute_manifest_hash manifest)));
    };
  }

  -- `Sign`
  unfoldable pub sign : Manifest → List ℕ → Result ManifestError Manifest
  unfolding stamp
  sign manifest private_key =
      if not (nat_eq (length private_key) private_key_size)
      then err signature_invalid
      else if not (validate_manifest_shape (normalize_manifest manifest))
      then err invalid
      else ok (stamp (normalize_manifest manifest) private_key)

  -- `Verify` from the decoded signature on; `none` stands for base64's error.
  unfoldable pub verify_decoded :
      List ℕ → Option (List ℕ) → Manifest → Result ManifestError (Unit {0})
  verify_decoded public_key none m = err signature_invalid
  verify_decoded public_key (some signature) m =
      if not (nat_eq (length signature) signature_size)
        || not (verify_bytes public_key (utf8 m.manifest_hash_sha256) signature)
      then err signature_invalid
      else ok tt

  -- `Verify` from the key's look-up on.
  unfoldable pub verify_signature : Option (List ℕ) → Manifest → Result ManifestError (Unit {0})
  unfolding verify_decoded
  verify_signature none m = err signature_invalid
  verify_signature (some public_key) m =
      if not (nat_eq (length public_key) public_key_size)
      then err signature_invalid
      else verify_decoded public_key (base64_decode m.signature.signature_b64) m

  -- `Verify` of a normalised manifest.
  unfoldable pub verify_normal : Manifest → Keyring → ℤ → Result ManifestError (Unit {0})
  unfolding verify_signature
  verify_normal m keyring now =
      if not (validate_manifest_shape m)
      then err invalid
      else if leb_ℤ m.expires_at_ms now
      then err expired
      else if trim_space m.manifest_hash_sha256 == ""
          || trim_space m.signature.algorithm == ""
          || trim_space m.signature.signature_b64 == ""
      then err unsigned
      else if not (m.signature.algorithm == signature_algorithm_ed25519)
      then err signature_invalid
      else if not (equal_fold (compute_manifest_hash m) m.manifest_hash_sha256)
      then err hash_mismatch
      else verify_signature (lookup m.signing_key_id keyring) m

  -- `Verify`
  unfoldable pub verify : Manifest → Keyring → ℤ → ℤ → Result ManifestError (Unit {0})
  unfolding verify_normal
  verify manifest keyring clock now_ms =
      verify_normal (normalize_manifest manifest) keyring (effective_now_ms clock now_ms)
