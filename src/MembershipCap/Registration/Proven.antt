-- ===== src/MembershipCap/Registration/Proven.antt =====
-- membershipcap/meshregistration.go: registrations that are signed verify.
use xx_federation_contracts.Base.{◌≡◌, refl, ap, sym, ◌∙◌, true, false, is_empty}
use xx_federation_contracts.Base.Bytes.{Bytes, same_bytes, same_refl}
use xx_federation_contracts.Base.Ed25519.{Ed25519, IsKeyPair, has_size, public_key_size}
use xx_federation_contracts.Base.Exec.{ok}
use xx_federation_contracts.MembershipCap.Types.{MeshRegistrationClaim, Codec}
use xx_federation_contracts.MembershipCap.Capability.{verify_proof_of_possession}
use xx_federation_contracts.MembershipCap.Registration.{
  Enrolled, to_roster_entry, challenge_message, mesh_registration_challenge, validate_claim,
  stamp_claim, signed_claim, sign_mesh_registration, verify_possession, verify_claim, verified,
  as_verified,
}

module _ (codec : Codec) (ed : Ed25519) (private_key public_key : Bytes)
    (keys : IsKeyPair ed private_key public_key)
    (hashed : (m : Bytes) → is_empty (codec.sha256 m) ≡ false) where
  -- A valid claim of the key pair's mesh key can be signed, and the signed claim verifies under the
  -- same enrolled identity and gives the same roster entry.
  pub sign_mesh_registration-as_verified :
      (who : Enrolled) (c : MeshRegistrationClaim)
      → public_key ≡ c.mesh_pub_key_ed25519
      → validate_claim codec c ≡ ok tt
      → (signed : MeshRegistrationClaim) × (sign_mesh_registration codec ed private_key who c
          ≡ ok signed)
        × (as_verified codec ed who signed ≡ ok signed)
        × (to_roster_entry signed ≡ to_roster_entry c)
  unfolding sign_mesh_registration signed_claim stamp_claim as_verified verified verify_claim
      verify_possession verify_proof_of_possession mesh_registration_challenge challenge_message
      to_roster_entry validate_claim
  sign_mesh_registration-as_verified who c own valid =
      let same : same_bytes (ed.public private_key) c.mesh_pub_key_ed25519 ≡ true =
        rw (keys.derived ∙ own) (same_refl _) in
      let sized : has_size c.mesh_pub_key_ed25519 public_key_size ≡ true =
        sym (ap (λ k. has_size k public_key_size) own) ∙ keys.public_size in
      (
        stamp_claim codec ed private_key who c,
        rw (keys.private_size, same) (rw valid refl),
        rw valid (rw (sized, hashed, keys.sign_size) (rw (sym own) (rw keys.sign_verifies refl))),
        refl,
      )
