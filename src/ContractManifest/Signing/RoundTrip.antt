-- ===== src/ContractManifest/Signing/RoundTrip.antt =====
-- contracts/contractmanifest/manifest.go: `Verify` accepts what `Sign` signs.
use xx_federation_contracts.Base.{
  ℕ, String, ◌≡◌, refl, ◌∙◌, ap, sym, true, false, List, [], ◌∷◌, some, ◌==◌, map, length, nat_eq,
  arith,
}
use xx_federation_contracts.Base.Int.{ℤ, leb_ℤ}
use xx_federation_contracts.Base.Hex.{hex, trim_space-hex, hex_filled}
use xx_federation_contracts.Base.Maps.{lookup}
use xx_federation_contracts.Base.Text.{trim_space}
use xx_federation_contracts.Base.Exec.{ok}
use xx_federation_contracts.Exchange.Payload.{equal_fold, fold}
use xx_federation_contracts.Exchange.Topology.{same_codes, codes}
use xx_federation_contracts.ContractManifest.Types.{Manifest, Crypto, KeyPair}
use xx_federation_contracts.ContractManifest.Normal.{normalize_manifest}
use xx_federation_contracts.ContractManifest.Normal.Settled.{normalize_manifest_idem}
use xx_federation_contracts.ContractManifest.Shape.{validate_manifest_shape}
use xx_federation_contracts.ContractManifest.Signing.{
  Keyring, effective_now_ms, compute_manifest_hash, verify, verify_normal, verify_signature,
  verify_decoded, sign, stamp, blank, signature_algorithm_ed25519,
}

same_codes_refl : (s : List ℕ) → same_codes s s ≡ true
unfolding same_codes
same_codes_refl [] = refl
same_codes_refl (c ∷ s) = ground (arith, same_codes_refl s)

equal_fold_refl : (s : String) → equal_fold s s ≡ true
unfolding equal_fold
equal_fold_refl s = same_codes_refl (map fold (codes s))

sized : (bytes : List ℕ) (n : ℕ) → length bytes ≡ n → nat_eq (length bytes) n ≡ true
sized bytes n h = ground arith

hex_nonempty : (bytes : List ℕ) → length bytes ≡ 32 → (hex bytes == "") ≡ false
hex_nonempty [] h = ground arith
hex_nonempty (b ∷ bytes) h = hex_filled b bytes

algorithm_filled : (trim_space signature_algorithm_ed25519 == "") ≡ false
unfolding trim_space
algorithm_filled = refl

module _ (crypto : Crypto) where
  verify_normal_complete :
      (m : Manifest) (keyring : Keyring) (now_ms : ℤ)
      → validate_manifest_shape m ≡ true
      → leb_ℤ m.expires_at_ms now_ms ≡ false
      → (trim_space m.manifest_hash_sha256 == "") ≡ false
      → (trim_space m.signature.algorithm == "") ≡ false
      → (trim_space m.signature.signature_b64 == "") ≡ false
      → (m.signature.algorithm == signature_algorithm_ed25519) ≡ true
      → equal_fold (compute_manifest_hash crypto m) m.manifest_hash_sha256 ≡ true
      → verify_signature crypto (lookup m.signing_key_id keyring) m ≡ ok tt
      → verify_normal crypto m keyring now_ms ≡ ok tt
  unfolding verify_normal
  verify_normal_complete m keyring now_ms shaped live hashed named signed ed same valid =
      rw (shaped, live, hashed, named, signed, ed, same) valid

  module _ (private_key public_key : List ℕ) (keys : KeyPair crypto private_key public_key) where
    stamp-IsNormal :
        (m : Manifest)
        → normalize_manifest m ≡ m
        → normalize_manifest (stamp crypto m private_key) ≡ stamp crypto m private_key
    unfolding normalize_manifest stamp compute_manifest_hash trim_space
    stamp-IsNormal m normal i = record (normal i) {
      manifest_hash_sha256 =
          trim_space-hex (crypto.sha256 (crypto.marshal (blank (normalize_manifest m)))) i;
      signature = record {
        algorithm = signature_algorithm_ed25519;
        signature_b64 = keys.encode_trimmed (crypto.utf8 (compute_manifest_hash crypto m)) i;
      };
    }

    stamp_hash :
        (m : Manifest)
        → normalize_manifest m ≡ m
        → compute_manifest_hash crypto (stamp crypto m private_key) ≡ compute_manifest_hash crypto m
    unfolding compute_manifest_hash stamp
    stamp_hash m normal =
        ap (λ x. hex (crypto.sha256 (crypto.marshal (blank x)))) (stamp-IsNormal m normal)
        ∙ ap (λ x. hex (crypto.sha256 (crypto.marshal (blank x)))) (sym normal)

    module _ (digest_size : (bytes : List ℕ) → length (crypto.sha256 bytes) ≡ 32) where
      hash_filled : (m : Manifest) → (trim_space (compute_manifest_hash crypto m) == "") ≡ false
      unfolding compute_manifest_hash
      hash_filled m =
          rw (trim_space-hex (crypto.sha256 (crypto.marshal (blank (normalize_manifest m)))))
            (hex_nonempty _ (digest_size _))

      verify_signature-stamp :
          (m : Manifest)
          → verify_signature crypto (some public_key) (stamp crypto m private_key) ≡ ok tt
      unfolding verify_signature verify_decoded stamp
      verify_signature-stamp m =
          rw (sized public_key _ keys.public_size, keys.decode_encode)
            (rw
              (
                sized _ _ (keys.sign_size (crypto.utf8 (compute_manifest_hash crypto m))),
                keys.sign_verifies,
              )
              refl)

      verify_normal-stamp :
          (m : Manifest) (keyring : Keyring) (now_ms : ℤ)
          → normalize_manifest m ≡ m
          → validate_manifest_shape m ≡ true
          → leb_ℤ m.expires_at_ms now_ms ≡ false
          → lookup m.signing_key_id keyring ≡ some public_key
          → verify_normal crypto (stamp crypto m private_key) keyring now_ms ≡ ok tt
      unfolding stamp validate_manifest_shape
      verify_normal-stamp m keyring now_ms normal shaped live known =
          verify_normal_complete (stamp crypto m private_key) keyring now_ms shaped live
            (hash_filled m) algorithm_filled
            (rw keys.encode_trimmed
              (keys.encode_filled (crypto.utf8 (compute_manifest_hash crypto m))))
            refl (rw (stamp_hash m normal) (equal_fold_refl _))
            (rw known (verify_signature-stamp m))

      sign_shaped :
          (manifest : Manifest)
          → validate_manifest_shape (normalize_manifest manifest) ≡ true
          → sign crypto manifest private_key
            ≡ ok (stamp crypto (normalize_manifest manifest) private_key)
      unfolding sign
      sign_shaped manifest shaped = rw (sized private_key _ keys.private_size, shaped) refl

      pub accepted_stamp :
          (manifest : Manifest) (keyring : Keyring) (clock now_ms : ℤ)
          → validate_manifest_shape (normalize_manifest manifest) ≡ true
          → leb_ℤ manifest.expires_at_ms (effective_now_ms clock now_ms) ≡ false
          → lookup (trim_space manifest.signing_key_id) keyring ≡ some public_key
          → verify crypto
              (stamp crypto (normalize_manifest manifest) private_key)
              keyring
              clock
              now_ms
            ≡ ok tt
      unfolding verify normalize_manifest
      accepted_stamp manifest keyring clock now_ms shaped live known =
          ap (λ m. verify_normal crypto m keyring (effective_now_ms clock now_ms))
            (stamp-IsNormal (normalize_manifest manifest) (normalize_manifest_idem manifest shaped))
          ∙ verify_normal-stamp (normalize_manifest manifest) keyring
              (effective_now_ms clock now_ms) (normalize_manifest_idem manifest shaped) shaped live
              known

      -- What `Sign` makes of a manifest of a valid shape, `Verify` accepts before its expiry, under
      -- a keyring that holds the public key for the manifest's signing key.
      pub sign-verify :
          (manifest : Manifest) (keyring : Keyring) (clock now_ms : ℤ)
          → validate_manifest_shape (normalize_manifest manifest) ≡ true
          → leb_ℤ manifest.expires_at_ms (effective_now_ms clock now_ms) ≡ false
          → lookup (trim_space manifest.signing_key_id) keyring ≡ some public_key
          → (signed : Manifest) × (sign crypto manifest private_key ≡ ok signed)
            × (verify crypto signed keyring clock now_ms ≡ ok tt)
      sign-verify manifest keyring clock now_ms shaped live known = (
        stamp crypto (normalize_manifest manifest) private_key,
        sign_shaped manifest shaped,
        accepted_stamp manifest keyring clock now_ms shaped live known,
      )
