-- ===== src/MembershipCap/Assembly/Total.antt =====
-- membershipcap/assemble.go: assemblies of verified claims, which are built.
use xx_federation_contracts.Base.{
  ◌≡◌, refl, ap, ◌∙◌, true, false, List, [], ◌∷◌, All, arith, map, if◌then◌else◌, if-holds,
}
use xx_federation_contracts.Base.Int.{
  ℤ, pos, negsuc, ◌+ℤ◌, ◌≤ℤ◌, ltb_ℤ, is_nonpositive, sub64, max_int64, IsInt64,
}
use xx_federation_contracts.Base.Bytes.{Bytes, same_bytes, same_refl}
use xx_federation_contracts.Base.Keyed.{sort-IsDistinct, less_key}
use xx_federation_contracts.Base.Sort.{sort-All}
use xx_federation_contracts.Base.Ed25519.{has_size, public_key_size}
use xx_federation_contracts.Base.Exec.{ok}
use xx_federation_contracts.MembershipCap.Types.{
  MeshRegistrationClaim, PeerRosterEntry, FabricPeerRoster, Codec,
}
use xx_federation_contracts.MembershipCap.Roster.{
  mem_bytes, mesh_key, own_key, has_path_material, sorted_roster_entries, sorted_tombstones,
  validate,
}
use xx_federation_contracts.MembershipCap.Roster.Valid.{IsWellFormed, validate_iff}
use xx_federation_contracts.MembershipCap.Registration.{to_roster_entry, validate_claim}
use xx_federation_contracts.MembershipCap.Assembly.{
  RosterAssembly, claim_key, stays, dedup, keep, gather, draft_roster, built,
  build_fabric_peer_roster,
}
use xx_federation_contracts.MembershipCap.Assembly.Freshest.{gather_tombstone}
use xx_federation_contracts.MembershipCap.Assembly.Draft.{
  entry_of, gathered, gathered-IsDistinct, find-draft,
}

module _ (P : MeshRegistrationClaim → Type 0) where
  keep-All :
      (c : MeshRegistrationClaim) (latest : List MeshRegistrationClaim)
      → P c
      → All P latest
      → All P (keep c latest)
  unfolding keep
  keep-All c [] p h = (p, tt)
  keep-All c (prev ∷ latest) p (q, h) =
      if-holds (All P) (same_bytes (claim_key prev) (claim_key c))
        (if-holds (All P) (stays prev c) (q, h) (p, h)) (q, keep-All c latest p h)

  gather-All :
      (tomb : List Bytes) (latest claims : List MeshRegistrationClaim)
      → All P latest
      → All P claims
      → All P (gather tomb latest claims)
  unfolding gather
  gather-All tomb latest [] h k = h
  gather-All tomb latest (c ∷ claims) h (p, k) =
      gather-All tomb (if mem_bytes (claim_key c) tomb then latest else keep c latest) claims
        (if-holds (All P) (mem_bytes (claim_key c) tomb) h (keep-All c latest p h)) k

module _ (P : Bytes → Type 0) where
  dedup-All : (tomb ts : List Bytes) → All P ts → All P (dedup tomb ts)
  unfolding dedup
  dedup-All tomb [] h = tt
  dedup-All tomb (t ∷ ts) (p, h) =
      if-holds (All P) (mem_bytes t tomb) (dedup-All tomb ts h) (p, dedup-All (t ∷ tomb) ts h)

  All-of_mem : (ts : List Bytes) → ((t : Bytes) → mem_bytes t ts ≡ true → P t) → All P ts
  All-of_mem [] f = tt
  All-of_mem (t ∷ ts) f =
      (f t (ground (arith, same_refl t)), All-of_mem ts (λ u h. f u (ground (arith, h))))

both : (P Q : Bytes → Type 0) (ts : List Bytes) → All P ts → All Q ts → All (λ t. P t × Q t) ts
both P Q [] h k = tt
both P Q (t ∷ ts) (p, h) (q, k) = ((p, q), both P Q ts h k)

module _ (codec : Codec) where
  abbrev IsValid : MeshRegistrationClaim → Type 0
  IsValid c = validate_claim codec c ≡ ok tt

  abbrev HasMaterial : PeerRosterEntry → Type 0
  HasMaterial e = has_path_material codec e ≡ true

  map-HasMaterial :
      (cs : List MeshRegistrationClaim) → All IsValid cs → All HasMaterial (map to_roster_entry cs)
  unfolding has_path_material validate_claim to_roster_entry
  map-HasMaterial [] h = tt
  map-HasMaterial (c ∷ cs) (p, h) = (ground (arith, p), map-HasMaterial cs h)

  guard :
      (issued ttl : ℤ)
      → pos 1 ≤ℤ issued
      → pos 1 ≤ℤ ttl
      → IsInt64 (issued +ℤ ttl)
      → ltb_ℤ (sub64 max_int64 issued) ttl ≡ false
  unfolding sub64 ◌+ℤ◌
  guard (pos a) (pos b) p q h = ground arith
  guard (pos a) (negsuc b) p q h = ground arith
  guard (negsuc a) b p q h = ground arith

  draft-IsWellFormed :
      (a : RosterAssembly)
      → pos 1 ≤ℤ a.epoch
      → All IsValid a.claims
      → All (λ t. has_size t public_key_size ≡ true) a.tombstones
      → IsWellFormed codec (draft_roster a)
  unfolding draft_roster sorted_roster_entries sorted_tombstones
  draft-IsWellFormed a late valid sized = (
    late,
    sort-All (less_key mesh_key) HasMaterial (map to_roster_entry (gathered a)) (
        map-HasMaterial (gathered a)
          (gather-All IsValid (dedup [] a.tombstones) [] a.claims tt valid)),
    sort-IsDistinct mesh_key (map to_roster_entry (gathered a)) (gathered-IsDistinct a),
    sort-All (less_key own_key) _ (dedup [] a.tombstones) (
        both _ _ (dedup [] a.tombstones) (dedup-All _ [] a.tombstones sized) (
          All-of_mem _ (dedup [] a.tombstones) (λ t dead.
            find-draft t a
            ∙ ap entry_of (gather_tombstone t (dedup [] a.tombstones) a.claims dead)))),
  )

  -- Whatever the order and the repetitions of its claims, an assembly is built if its claims are
  -- valid, its tombstones have the size of a key, its epoch is at least 1, and its time of issue
  -- and time to live are positive with a sum that is an int64.
  pub build_fabric_peer_roster_total :
      (a : RosterAssembly)
      → pos 1 ≤ℤ a.epoch
      → pos 1 ≤ℤ a.issued_at_ms
      → pos 1 ≤ℤ a.ttl_ms
      → IsInt64 (a.issued_at_ms +ℤ a.ttl_ms)
      → All IsValid a.claims
      → All (λ t. has_size t public_key_size ≡ true) a.tombstones
      → (roster : FabricPeerRoster) × (build_fabric_peer_roster codec a ≡ ok roster)
  unfolding build_fabric_peer_roster built
  build_fabric_peer_roster_total a late issued living fits valid sized =
      let passed : validate codec (draft_roster a) ≡ ok tt =
        (validate_iff codec (draft_roster a)).1 (draft-IsWellFormed a late valid sized) in
      let first : is_nonpositive a.issued_at_ms ≡ false = positive a.issued_at_ms issued in
      let second : is_nonpositive a.ttl_ms ≡ false = positive a.ttl_ms living in
      (
        draft_roster a,
        rw (first, second) (rw (guard a.issued_at_ms a.ttl_ms issued living fits, passed) refl),
      )
    where
      positive : (n : ℤ) → pos 1 ≤ℤ n → is_nonpositive n ≡ false
      positive (pos n) h = ground arith
      positive (negsuc n) h = ground arith
