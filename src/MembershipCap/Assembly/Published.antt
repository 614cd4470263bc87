-- ===== src/MembershipCap/Assembly/Published.antt =====
-- membershipcap/assemble.go: rosters that are assembled and signed, and then verified and validated
-- by a peer.
use xx_federation_contracts.Base.{String, ◌≡◌, refl, ap, sym, ◌∙◌, false, some, arith}
use xx_federation_contracts.Base.Int.{ℤ, leb_ℤ}
use xx_federation_contracts.Base.Maps.{Map, lookup}
use xx_federation_contracts.Base.Bytes.{Bytes}
use xx_federation_contracts.Base.Ed25519.{Ed25519, IsKeyPair}
use xx_federation_contracts.Base.Exec.{ok, value_or}
use xx_federation_contracts.MembershipCap.Types.{FabricPeerRoster, Codec}
use xx_federation_contracts.MembershipCap.Capability.{is_past}
use xx_federation_contracts.MembershipCap.Roster.{
  validate, stamp_roster, sign_fabric_peer_roster, verify_roster,
}
use xx_federation_contracts.MembershipCap.Signed.{sign_fabric_peer_roster-verify_roster}
use xx_federation_contracts.MembershipCap.Assembly.{
  RosterAssembly, assembled, build_fabric_peer_roster, assemble_fabric_peer_roster,
}
use xx_federation_contracts.MembershipCap.Assembly.Built.{build_sound}

-- A roster that is built is also assembled, and a peer that trusts the signer accepts what is signed
-- before it expires, by its signature and by its structure.
pub assemble_fabric_peer_roster-verify_roster :
    (codec : Codec) (ed : Ed25519) (private_key public_key : Bytes)
    → IsKeyPair ed private_key public_key
    → (trusted : Map Bytes) (key_id : String) → lookup key_id trusted ≡ some public_key
    → (a : RosterAssembly) (roster : FabricPeerRoster) (now_ms : ℤ)
    → build_fabric_peer_roster codec a ≡ ok roster
    → leb_ℤ roster.not_after_ms now_ms ≡ false
    → (signed : FabricPeerRoster) × (assemble_fabric_peer_roster codec ed key_id private_key a
        ≡ ok signed)
      × (verify_roster codec ed signed trusted now_ms ≡ ok tt)
      × (validate codec signed ≡ ok tt)
unfolding assemble_fabric_peer_roster assembled sign_fabric_peer_roster stamp_roster is_past
    validate
assemble_fabric_peer_roster-verify_roster codec ed private_key public_key keys trusted key_id known
      a roster now_ms h live =
    let (signed, signs, verifies) =
      sign_fabric_peer_roster-verify_roster codec ed private_key public_key keys trusted key_id
        known roster now_ms (ground (arith, live)) in
    let stamped : sign_fabric_peer_roster codec ed key_id private_key roster
        ≡ ok (stamp_roster codec ed key_id private_key roster) =
      rw (keys.private_size) refl in
    (
      signed,
      rw h signs,
      verifies,
      ap (λ result. validate codec (value_or roster result)) (sym signs ∙ stamped)
          ∙ (build_sound codec a roster h).3,
    )
