-- ===== src/MembershipCap/Roster.antt =====
-- membershipcap/peerroster.go: signed rosters of a fabric's peers, and their structural validation.
pub mod Valid
use xx_federation_contracts.Base.{
  ℕ, Bool, true, false, ◌&&◌, ◌||◌, not, String, List, [], ◌∷◌, ◌++◌, Option, none, some, any,
  if◌then◌else◌,
}
use xx_federation_contracts.Base.Int.{ℤ, pos, ltb_ℤ}
use xx_federation_contracts.Base.Maps.{Map, lookup, is_some}
use xx_federation_contracts.Base.Bytes.{Bytes, same_bytes}
use xx_federation_contracts.Base.Keyed.{less_key}
use xx_federation_contracts.Base.Sort.{sort}
use xx_federation_contracts.Base.Ed25519.{
  Ed25519, has_size, private_key_size, public_key_size, signature_size,
}
use xx_federation_contracts.Base.Exec.{Result, ok, err}
use xx_federation_contracts.MembershipCap.Types.{
  PeerRosterEntry, FabricPeerRoster, Codec, MembershipError, bad_key, peer_roster_signature,
  peer_roster_expired, peer_roster_signer, peer_roster_entry, peer_roster_epoch,
}
use xx_federation_contracts.MembershipCap.Capability.{is_past}

abbrev pub wg_public_key_size : ℕ
wg_public_key_size = 32

abbrev pub fabric_peer_roster_domain : String
fabric_peer_roster_domain = "builders-net/membershipcap/fabric-peer-roster/v1\0"

abbrev pub mesh_key : PeerRosterEntry → Bytes
mesh_key e = e.mesh_pub_key_ed25519

-- The key of a tombstone is the tombstone.
abbrev pub own_key : Bytes → Bytes
own_key t = t

-- `sortedRosterEntries`
unfoldable pub sorted_roster_entries : List PeerRosterEntry → List PeerRosterEntry
sorted_roster_entries entries = sort (less_key mesh_key) entries

-- `sortedTombstones`
unfoldable pub sorted_tombstones : List Bytes → List Bytes
sorted_tombstones tombstones = sort (less_key own_key) tombstones

-- `_, ok := seen[string(k)]`, of which the map is only ever added to.
abbrev pub mem_bytes : Bytes → List Bytes → Bool
mem_bytes k seen = any (λ x. same_bytes x k) seen

module _ (codec : Codec) where
  open codec use {marshal_roster, utf8, parse_addr}

  -- `peerRosterCanonicalBytes`
  unfoldable pub peer_roster_canonical_bytes : FabricPeerRoster → Bytes
  unfolding sorted_roster_entries sorted_tombstones
  peer_roster_canonical_bytes r =
      utf8 fabric_peer_roster_domain
      ++ marshal_roster (record r {
        signature = [];
        entries = sorted_roster_entries r.entries;
        tombstones = sorted_tombstones r.tombstones;
      })

  -- The tests of one entry but that on its key's repetition.
  unfoldable pub has_path_material : PeerRosterEntry → Bool
  has_path_material e =
      has_size e.mesh_pub_key_ed25519 public_key_size
      && has_size e.pub_key_wg wg_public_key_size
      && is_some (parse_addr e.mesh_ip)

  -- The loop over the entries, with the keys seen so far; it ends with all of them.
  unfoldable pub validate_entries :
      List Bytes → List PeerRosterEntry → Result MembershipError (List Bytes)
  unfolding has_path_material
  validate_entries seen [] = ok seen
  validate_entries seen (e ∷ entries) =
      let more = validate_entries (mesh_key e ∷ seen) entries in
      if not (has_path_material e)
      then err peer_roster_entry
      else if mem_bytes (mesh_key e) seen
      then err peer_roster_entry
      else more

  -- The loop over the tombstones.
  unfoldable pub validate_tombstones : List Bytes → List Bytes → Result MembershipError (Unit {0})
  validate_tombstones seen [] = ok tt
  validate_tombstones seen (t ∷ tombstones) =
      let more = validate_tombstones seen tombstones in
      if not (has_size t public_key_size)
      then err peer_roster_entry
      else if mem_bytes t seen
      then err peer_roster_entry
      else more

  -- `Validate` from the loop over the tombstones on.
  unfoldable pub validate_removed :
      Result MembershipError (List Bytes) → List Bytes → Result MembershipError (Unit {0})
  unfolding validate_tombstones
  validate_removed (err e) tombstones = err e
  validate_removed (ok seen) tombstones = validate_tombstones seen tombstones

  -- `Validate`
  unfoldable pub validate : FabricPeerRoster → Result MembershipError (Unit {0})
  unfolding validate_removed validate_entries
  validate r =
      if ltb_ℤ r.epoch (pos 1)
      then err peer_roster_epoch
      else validate_removed (validate_entries [] r.entries) r.tombstones

  module _ (ed : Ed25519) where
    -- The roster that `SignFabricPeerRoster` returns.
    unfoldable pub stamp_roster : String → Bytes → FabricPeerRoster → FabricPeerRoster
    stamp_roster key_id private_key r = record r {
      signer_key_id = key_id;
      signature =
          ed.sign private_key
            (peer_roster_canonical_bytes (record r { signer_key_id = key_id; signature = [] }));
    }

    -- `SignFabricPeerRoster`
    unfoldable pub sign_fabric_peer_roster :
        String → Bytes → FabricPeerRoster → Result MembershipError FabricPeerRoster
    unfolding stamp_roster
    sign_fabric_peer_roster key_id private_key r =
        if not (has_size private_key private_key_size)
        then err bad_key
        else ok (stamp_roster key_id private_key r)

    -- `Verify` from the look-up of the signer on.
    unfoldable pub verify_roster_by :
        Option Bytes → FabricPeerRoster → ℤ → Result MembershipError (Unit {0})
    unfolding is_past
    verify_roster_by none r now_ms = err peer_roster_signer
    verify_roster_by (some public_key) r now_ms =
        if not (has_size public_key public_key_size)
        then err peer_roster_signer
        else if is_past r.not_after_ms now_ms
        then err peer_roster_expired
        else if not (has_size r.signature signature_size)
        then err peer_roster_signature
        else if not (ed.verify public_key (peer_roster_canonical_bytes r) r.signature)
        then err peer_roster_signature
        else ok tt

    -- `Verify`
    unfoldable pub verify_roster :
        FabricPeerRoster → Map Bytes → ℤ → Result MembershipError (Unit {0})
    unfolding verify_roster_by
    verify_roster r trusted now_ms = verify_roster_by (lookup r.signer_key_id trusted) r now_ms
