-- ===== src/MembershipCap/Registration.antt =====
-- membershipcap/meshregistration.go: registrations of mesh keys, their challenge and its proof. A
-- `VerifiedMeshRegistration` is the claim that it wraps.
pub mod Bound
pub mod Proven
use xx_federation_contracts.Base.{
  ℕ, Bool, true, false, not, String, List, [], ◌∷◌, ◌++◌, Option, none, some, map, if◌then◌else◌,
}
use xx_federation_contracts.Base.Int.{ℤ, is_nonpositive, to_bits}
use xx_federation_contracts.Base.Maps.{is_some, or_else}
use xx_federation_contracts.Base.Bytes.{Bytes, same_bytes}
use xx_federation_contracts.Base.Frames.{big_endian, frame, frame_list}
use xx_federation_contracts.Base.Ed25519.{Ed25519, has_size, private_key_size, public_key_size}
use xx_federation_contracts.Base.Exec.{Result, ok, err}
use xx_federation_contracts.MembershipCap.Types.{
  MeshRegistrationClaim, PeerRosterEntry, Codec, MembershipError, bad_key, mesh_registration,
}
use xx_federation_contracts.MembershipCap.Capability.{verify_proof_of_possession}
use xx_federation_contracts.MembershipCap.Roster.{wg_public_key_size}

abbrev pub mesh_registration_domain : String
mesh_registration_domain = "builders-net/membershipcap/mesh-registration/v1"

-- The enrolled identity: `fabricID`, `gatewayID` and `bindingID`.
pub record Enrolled : Type 0 where
  pub fabric_id : String
  pub gateway_id : String
  pub binding_id : String

-- `ToRosterEntry`
unfoldable pub to_roster_entry : MeshRegistrationClaim → PeerRosterEntry
to_roster_entry c = record {
  mesh_pub_key_ed25519 = c.mesh_pub_key_ed25519;
  pub_key_wg = c.pub_key_wg;
  mesh_ip = c.mesh_ip;
  fq_name = c.fq_name;
  role = c.role;
  libp2p_peer_id = c.libp2p_peer_id;
  endpoints = c.endpoints;
  bootstrap_addrs = c.bootstrap_addrs;
}

-- The width of `writeLenField`'s lengths.
abbrev pub width : ℕ
width = 8

module _ (codec : Codec) where
  open codec use {sha256, utf8, parse_addr}

  -- `meshIP`: the canonical address, or the text itself where it is no address.
  unfoldable pub canonical_ip : String → String
  canonical_ip mesh_ip = or_else mesh_ip (parse_addr mesh_ip)

  -- What `meshRegistrationChallenge` writes to the hash.
  unfoldable pub challenge_message : Enrolled → MeshRegistrationClaim → Bytes
  unfolding canonical_ip
  challenge_message who c =
      frame width (utf8 mesh_registration_domain)
      ++ (frame width (utf8 who.fabric_id)
          ++ (frame width (utf8 who.gateway_id)
              ++ (frame width (utf8 who.binding_id)
                  ++ (frame width c.mesh_pub_key_ed25519
                      ++ (frame width c.pub_key_wg
                          ++ (frame width (utf8 (canonical_ip c.mesh_ip))
                              ++ (frame width (utf8 c.fq_name)
                                  ++ (frame width (utf8 c.role)
                                      ++ (frame width (utf8 c.libp2p_peer_id)
                                          ++ (frame_list width (map utf8 c.endpoints)
                                              ++ (frame_list width (map utf8 c.bootstrap_addrs)
                                                  ++ big_endian width
                                                      (to_bits c.issued_at_ms))))))))))))

  -- `meshRegistrationChallenge`
  unfoldable pub mesh_registration_challenge : Enrolled → MeshRegistrationClaim → Bytes
  unfolding challenge_message
  mesh_registration_challenge who c = sha256 (challenge_message who c)

  -- `Validate`
  unfoldable pub validate_claim : MeshRegistrationClaim → Result MembershipError (Unit {0})
  validate_claim c =
      if not (has_size c.mesh_pub_key_ed25519 public_key_size)
      then err mesh_registration
      else if not (has_size c.pub_key_wg wg_public_key_size)
      then err mesh_registration
      else if not (is_some (parse_addr c.mesh_ip))
      then err mesh_registration
      else if is_nonpositive c.issued_at_ms
      then err mesh_registration
      else ok tt

  module _ (ed : Ed25519) where
    -- The claim that `SignMeshRegistration` returns.
    unfoldable pub stamp_claim : Bytes → Enrolled → MeshRegistrationClaim → MeshRegistrationClaim
    stamp_claim mesh_private_key who c = record c {
      proof_of_possession = ed.sign mesh_private_key (mesh_registration_challenge who c);
    }

    -- `SignMeshRegistration` from the validation on.
    unfoldable pub signed_claim :
        Result MembershipError (Unit {0})
        → Bytes
        → Enrolled
        → MeshRegistrationClaim
        → Result MembershipError MeshRegistrationClaim
    unfolding stamp_claim
    signed_claim (err e) mesh_private_key who c = err e
    signed_claim (ok _) mesh_private_key who c = ok (stamp_claim mesh_private_key who c)

    -- `SignMeshRegistration`
    unfoldable pub sign_mesh_registration :
        Bytes → Enrolled → MeshRegistrationClaim → Result MembershipError MeshRegistrationClaim
    unfolding signed_claim
    sign_mesh_registration mesh_private_key who c =
        if not (has_size mesh_private_key private_key_size)
        then err bad_key
        else if not (same_bytes (ed.public mesh_private_key) c.mesh_pub_key_ed25519)
        then err mesh_registration
        else signed_claim (validate_claim c) mesh_private_key who c

    -- `Verify` from the validation on.
    unfoldable pub verify_possession :
        Result MembershipError (Unit {0})
        → Enrolled
        → MeshRegistrationClaim
        → Result MembershipError (Unit {0})
    verify_possession (err e) who c = err e
    verify_possession (ok _) who c =
        verify_proof_of_possession ed c.mesh_pub_key_ed25519 (mesh_registration_challenge who c)
          c.proof_of_possession

    -- `Verify`
    unfoldable pub verify_claim :
        Enrolled → MeshRegistrationClaim → Result MembershipError (Unit {0})
    unfolding verify_possession
    verify_claim who c = verify_possession (validate_claim c) who c

    -- `AsVerified` from the verification on.
    unfoldable pub verified :
        Result MembershipError (Unit {0})
        → MeshRegistrationClaim
        → Result MembershipError MeshRegistrationClaim
    verified (err e) c = err e
    verified (ok _) c = ok c

    -- `AsVerified`
    unfoldable pub as_verified :
        Enrolled → MeshRegistrationClaim → Result MembershipError MeshRegistrationClaim
    unfolding verified
    as_verified who c = verified (verify_claim who c) c
