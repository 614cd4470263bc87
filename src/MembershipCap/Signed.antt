-- ===== src/MembershipCap/Signed.antt =====
-- membershipcap: capabilities, revocation lists and rosters that are signed verify, and the bytes that
-- are signed do not depend on the order of entries.
use xx_federation_contracts.Base.{
  String, ◌≡◌, refl, ap, sym, true, false, List, [], Option, none, some, arith, ◌↔◌,
}
use mathlib.Core.List.{Permᴰ}
use xx_federation_contracts.Base.Int.{ℤ}
use xx_federation_contracts.Base.Maps.{Map, lookup}
use xx_federation_contracts.Base.Bytes.{Bytes}
use xx_federation_contracts.Base.Keyed.{IsDistinct}
use xx_federation_contracts.Base.Keyed.Permuted.{sort-perm}
use xx_federation_contracts.Base.Ed25519.{
  Ed25519, IsKeyPair, has_size, public_key_size, signature_size,
}
use xx_federation_contracts.Base.Exec.{ok}
use xx_federation_contracts.MembershipCap.Types.{
  Capability, RevocationList, RevocationEntry, FabricPeerRoster, PeerRosterEntry, Codec,
}
use xx_federation_contracts.MembershipCap.Capability.{
  is_past, canonical_bytes, stamp, sign, verify, verify_by,
}
use xx_federation_contracts.MembershipCap.Revocation.{
  entry_key, sorted_entries, revocation_canonical_bytes, stamp_list, sign_revocation_list,
  verify_list, verify_list_by,
}
use xx_federation_contracts.MembershipCap.Roster.{
  mesh_key, own_key, sorted_roster_entries, sorted_tombstones, peer_roster_canonical_bytes,
  stamp_roster, sign_fabric_peer_roster, verify_roster, verify_roster_by,
}

module _ (codec : Codec) (ed : Ed25519) where
  -- A capability that verifies: signed by a trusted signer, of a key of the right size, not expired.
  abbrev pub IsAuthentic : Capability → Map Bytes → ℤ → Type 0
  IsAuthentic c trusted now_ms =
      (public_key : Bytes) × (lookup c.signer_key_id trusted ≡ some public_key)
      × (has_size public_key public_key_size ≡ true)
      × (has_size c.libp2p_public_key public_key_size ≡ true)
      × (is_past c.not_after_ms now_ms ≡ false)
      × (has_size c.signature signature_size ≡ true)
      × (ed.verify public_key (canonical_bytes codec c) c.signature ≡ true)

  verify_by_sound :
      (found : Option Bytes) (c : Capability) (trusted : Map Bytes) (now_ms : ℤ)
      → lookup c.signer_key_id trusted ≡ found
      → verify_by codec ed found c now_ms ≡ ok tt
      → IsAuthentic c trusted now_ms
  unfolding verify_by
  verify_by_sound none c trusted now_ms e h = ground arith
  verify_by_sound (some public_key) c trusted now_ms e h =
      (public_key, e, ground arith, ground arith, ground arith, ground arith, ground arith)

  -- `Verify` accepts a capability exactly if the signer it names is trusted with a key of the right
  -- size, its own key has the right size, it has not expired, and its signature has the right size
  -- and verifies over its canonical bytes.
  pub verify_iff :
      (c : Capability) (trusted : Map Bytes) (now_ms : ℤ)
      → (verify codec ed c trusted now_ms ≡ ok tt) ↔ IsAuthentic c trusted now_ms
  unfolding verify verify_by
  verify_iff c trusted now_ms = (
    verify_by_sound (lookup c.signer_key_id trusted) c trusted now_ms refl,
    λ (public_key, e, a, b, d, f, g). rw e (rw (a, b, d, f, g) refl),
  )

  module _ (private_key public_key : Bytes) (keys : IsKeyPair ed private_key public_key)
      (trusted : Map Bytes) (key_id : String)
      (known : lookup key_id trusted ≡ some public_key) where
    -- A capability for a key of the right size can be signed, and verifies until it expires, with
    -- the signer's key under its identifier.
    pub verify_signed :
        (c : Capability) (now_ms : ℤ)
        → has_size c.libp2p_public_key public_key_size ≡ true
        → is_past c.not_after_ms now_ms ≡ false
        → (signed : Capability) × (sign codec ed key_id private_key c ≡ ok signed)
          × (verify codec ed signed trusted now_ms ≡ ok tt)
    unfolding sign verify verify_by stamp canonical_bytes
    verify_signed c now_ms sized live = (
      stamp codec ed key_id private_key c,
      rw (keys.private_size, sized) refl,
      rw (known) (rw (keys.public_size, sized, live, keys.sign_size, keys.sign_verifies) refl),
    )

    -- A revocation list can be signed, and verifies until it expires.
    pub sign_revocation_list-verify_list :
        (rl : RevocationList) (now_ms : ℤ)
        → is_past rl.not_after_ms now_ms ≡ false
        → (signed : RevocationList) × (sign_revocation_list codec ed key_id private_key rl
            ≡ ok signed)
          × (verify_list codec ed signed trusted now_ms ≡ ok tt)
    unfolding sign_revocation_list verify_list verify_list_by stamp_list revocation_canonical_bytes
    sign_revocation_list-verify_list rl now_ms live = (
      stamp_list codec ed key_id private_key rl,
      rw keys.private_size refl,
      rw known (rw (keys.public_size, live, keys.sign_size, keys.sign_verifies) refl),
    )

    -- A roster can be signed, and verifies until it expires.
    pub sign_fabric_peer_roster-verify_roster :
        (r : FabricPeerRoster) (now_ms : ℤ)
        → is_past r.not_after_ms now_ms ≡ false
        → (signed : FabricPeerRoster) × (sign_fabric_peer_roster codec ed key_id private_key r
            ≡ ok signed)
          × (verify_roster codec ed signed trusted now_ms ≡ ok tt)
    unfolding sign_fabric_peer_roster verify_roster verify_roster_by stamp_roster
        peer_roster_canonical_bytes
    sign_fabric_peer_roster-verify_roster r now_ms live = (
      stamp_roster codec ed key_id private_key r,
      rw keys.private_size refl,
      rw known (rw (keys.public_size, live, keys.sign_size, keys.sign_verifies) refl),
    )

module _ (codec : Codec) where
  -- The bytes that are signed for a revocation list of distinct keys do not depend on the order of
  -- its entries.
  pub revocation_canonical_bytes_perm :
      (rl : RevocationList) (entries : List RevocationEntry)
      → Permᴰ rl.entries entries
      → IsDistinct entry_key rl.entries
      → revocation_canonical_bytes codec (record rl { entries = entries })
        ≡ revocation_canonical_bytes codec rl
  unfolding revocation_canonical_bytes sorted_entries
  revocation_canonical_bytes_perm rl entries p d =
      ap (λ es. codec.marshal_list (record rl { signature = []; entries = es }))
        (sym (sort-perm entry_key p d))

  -- The bytes that are signed for a roster of distinct keys and distinct tombstones do not depend on
  -- the order of either.
  pub peer_roster_canonical_bytes_perm :
      (r : FabricPeerRoster) (entries : List PeerRosterEntry) (tombstones : List Bytes)
      → Permᴰ r.entries entries
      → Permᴰ r.tombstones tombstones
      → IsDistinct mesh_key r.entries
      → IsDistinct own_key r.tombstones
      → peer_roster_canonical_bytes codec (record r { entries = entries; tombstones = tombstones })
        ≡ peer_roster_canonical_bytes codec r
  unfolding peer_roster_canonical_bytes sorted_roster_entries sorted_tombstones
  peer_roster_canonical_bytes_perm r entries tombstones p q d e =
      rw (sort-perm mesh_key p d, sort-perm own_key q e) refl
