-- ===== src/MembershipCap/Assembly.antt =====
-- membershipcap/assemble.go: a fabric's roster from its verified registrations and tombstones. The
-- source's map `latest` is a list of claims, each of which is the value of its own mesh key; the
-- sort that follows leaves nothing of the map's order.
pub mod Freshest
pub mod Draft
pub mod Built
pub mod Order
pub mod Total
pub mod Published
use xx_federation_contracts.Base.{
  Bool, true, false, ◌&&◌, ◌||◌, not, String, List, [], ◌∷◌, Option, none, some, map, if◌then◌else◌,
}
use xx_federation_contracts.Base.Int.{ℤ, ltb_ℤ, eq_ℤ, is_nonpositive, add64, sub64, max_int64}
use xx_federation_contracts.Base.Bytes.{Bytes, same_bytes, less_bytes}
use xx_federation_contracts.Base.Ed25519.{Ed25519}
use xx_federation_contracts.Base.Exec.{Result, ok, err}
use xx_federation_contracts.MembershipCap.Types.{
  MeshRegistrationClaim, PeerRosterEntry, FabricPeerRoster, Codec, MembershipError, roster_assembly,
}
use xx_federation_contracts.MembershipCap.Roster.{
  mem_bytes, sorted_roster_entries, sorted_tombstones, validate, sign_fabric_peer_roster,
}
use xx_federation_contracts.MembershipCap.Registration.{to_roster_entry}

pub record RosterAssembly : Type 0 where
  pub fabric_id : String
  pub epoch : ℤ
  pub issued_at_ms : ℤ
  pub ttl_ms : ℤ
  pub claims : List MeshRegistrationClaim
  pub tombstones : List Bytes

abbrev pub claim_key : MeshRegistrationClaim → Bytes
claim_key c = c.mesh_pub_key_ed25519

-- The loop over `a.Tombstones`: each one once, in the order of their first mention.
unfoldable pub dedup : List Bytes → List Bytes → List Bytes
dedup tomb [] = []
dedup tomb (t ∷ tombstones) =
    let skipped = dedup tomb tombstones in
    let kept = t ∷ dedup (t ∷ tomb) tombstones in if mem_bytes t tomb then skipped else kept

-- Whether the loop leaves `prev` in place for `c`: it is fresher, or as fresh and with a proof that
-- is not less.
unfoldable pub stays : MeshRegistrationClaim → MeshRegistrationClaim → Bool
stays prev c =
    ltb_ℤ c.issued_at_ms prev.issued_at_ms
    || (eq_ℤ prev.issued_at_ms c.issued_at_ms
        && not (less_bytes prev.proof_of_possession c.proof_of_possession))

-- `latest[k] = c`, unless the claim there stays.
unfoldable pub keep :
    MeshRegistrationClaim → List MeshRegistrationClaim → List MeshRegistrationClaim
unfolding stays
keep c [] = c ∷ []
keep c (prev ∷ latest) =
    let more = keep c latest in
    if same_bytes (claim_key prev) (claim_key c)
    then (if stays prev c then prev ∷ latest else c ∷ latest)
    else prev ∷ more

-- The loop over `a.Claims`.
unfoldable pub gather :
    List Bytes
    → List MeshRegistrationClaim
    → List MeshRegistrationClaim
    → List MeshRegistrationClaim
unfolding keep
gather tomb latest [] = latest
gather tomb latest (c ∷ claims) =
    gather tomb (if mem_bytes (claim_key c) tomb then latest else keep c latest) claims

-- The roster before its validation.
unfoldable pub draft_roster : RosterAssembly → FabricPeerRoster
unfolding gather dedup
draft_roster a = record {
  fabric_id = a.fabric_id;
  epoch = a.epoch;
  issued_at_ms = a.issued_at_ms;
  not_after_ms = add64 a.issued_at_ms a.ttl_ms;
  entries =
      sorted_roster_entries (map to_roster_entry (gather (dedup [] a.tombstones) [] a.claims));
  tombstones = sorted_tombstones (dedup [] a.tombstones);
  signer_key_id = "";
  signature = [];
}

module _ (codec : Codec) where
  -- `BuildFabricPeerRoster` from the validation on.
  unfoldable pub built :
      Result MembershipError (Unit {0}) → FabricPeerRoster → Result MembershipError FabricPeerRoster
  built (err e) roster = err e
  built (ok _) roster = ok roster

  -- `BuildFabricPeerRoster`
  unfoldable pub build_fabric_peer_roster : RosterAssembly → Result MembershipError FabricPeerRoster
  unfolding built draft_roster
  build_fabric_peer_roster a =
      if is_nonpositive a.issued_at_ms || is_nonpositive a.ttl_ms
      then err roster_assembly
      else if ltb_ℤ (sub64 max_int64 a.issued_at_ms) a.ttl_ms
      then err roster_assembly
      else built (validate codec (draft_roster a)) (draft_roster a)

  module _ (ed : Ed25519) where
    -- `AssembleFabricPeerRoster` from the signing on.
    unfoldable pub assembled :
        String
        → Bytes
        → Result MembershipError FabricPeerRoster
        → Result MembershipError FabricPeerRoster
    assembled key_id private_key (err e) = err e
    assembled key_id private_key (ok roster) =
        sign_fabric_peer_roster codec ed key_id private_key roster

    -- `AssembleFabricPeerRoster`
    unfoldable pub assemble_fabric_peer_roster :
        String → Bytes → RosterAssembly → Result MembershipError FabricPeerRoster
    unfolding assembled
    assemble_fabric_peer_roster key_id private_key a =
        assembled key_id private_key (build_fabric_peer_roster a)
