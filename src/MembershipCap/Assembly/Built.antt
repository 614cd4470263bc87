-- ===== src/MembershipCap/Assembly/Built.antt =====
-- membershipcap/assemble.go: what `BuildFabricPeerRoster` returns.
use xx_federation_contracts.Base.{
  ◌≡◌, refl, ap, sym, ◌∙◌, subst, true, false, [], arith, Option, none,
}
use xx_federation_contracts.Base.Int.{
  ℤ, pos, negsuc, ◌+ℤ◌, ◌<ℤ◌, ltb_ℤ, is_nonpositive, sub64, max_int64, IsInt64, add64-+ℤ,
}
use xx_federation_contracts.Base.Bytes.{Bytes}
use xx_federation_contracts.Base.Keyed.{find}
use xx_federation_contracts.Base.Exec.{Result, ok, err}
use xx_federation_contracts.MembershipCap.Types.{
  MeshRegistrationClaim, FabricPeerRoster, Codec, MembershipError,
}
use xx_federation_contracts.MembershipCap.Roster.{mem_bytes, mesh_key, validate}
use xx_federation_contracts.MembershipCap.Roster.Valid.{IsWellFormed, validate_iff}
use xx_federation_contracts.MembershipCap.Assembly.{
  RosterAssembly, claim_key, dedup, draft_roster, built, build_fabric_peer_roster,
}
use xx_federation_contracts.MembershipCap.Assembly.Freshest.{
  IsFreshest, gather-IsFreshest, gather_tombstone,
}
use xx_federation_contracts.MembershipCap.Assembly.Draft.{
  entry_of, gathered, mem-dedup_nil, find-draft,
}

-- The guard against an expiry that wraps around is exact.
fits_iff :
    (issued ttl : ℤ)
    → IsInt64 issued
    → IsInt64 ttl
    → is_nonpositive issued ≡ false
    → is_nonpositive ttl ≡ false
    → ltb_ℤ (sub64 max_int64 issued) ttl ≡ false
    → IsInt64 (issued +ℤ ttl)
unfolding sub64 ◌+ℤ◌
fits_iff (pos a) (pos b) h k p q r = ground arith
fits_iff (pos a) (negsuc b) h k p q r = ground arith
fits_iff (negsuc a) b h k p q r = ground arith

module _ (codec : Codec) where
  -- The tests that a roster's assembly passes.
  abbrev Passed : RosterAssembly → FabricPeerRoster → Type 0
  Passed a roster =
      (is_nonpositive a.issued_at_ms ≡ false)
      × (is_nonpositive a.ttl_ms ≡ false)
      × (ltb_ℤ (sub64 max_int64 a.issued_at_ms) a.ttl_ms ≡ false)
      × (validate codec roster ≡ ok tt)
      × (draft_roster a ≡ roster)

  built_sound :
      (result : Result MembershipError (Unit {0})) (draft roster : FabricPeerRoster)
      → built codec result draft ≡ ok roster
      → (result ≡ ok tt) × (draft ≡ roster)
  unfolding built
  built_sound (err e) draft roster h = ground arith
  built_sound (ok tt) draft roster h = (refl, ground arith)

  pub build_sound :
      (a : RosterAssembly) (roster : FabricPeerRoster)
      → build_fabric_peer_roster codec a ≡ ok roster
      → Passed a roster
  unfolding build_fabric_peer_roster
  build_sound a roster h =
      let (v, e) =
        built_sound (validate codec (draft_roster a)) (draft_roster a) roster (ground arith) in
      (ground arith, ground arith, ground arith, ap (validate codec) (sym e) ∙ v, e)

  -- A roster that is built is well-formed, so that it has one entry for each key, and it expires the
  -- time to live after it was issued, as a sum of integers: the machine's addition has not wrapped
  -- around.
  pub build_fabric_peer_roster-IsWellFormed :
      (a : RosterAssembly) (roster : FabricPeerRoster)
      → IsInt64 a.issued_at_ms
      → IsInt64 a.ttl_ms
      → build_fabric_peer_roster codec a ≡ ok roster
      → IsWellFormed codec roster
        × (roster.not_after_ms ≡ a.issued_at_ms +ℤ a.ttl_ms)
        × (a.issued_at_ms <ℤ roster.not_after_ms)
  unfolding draft_roster ◌+ℤ◌
  build_fabric_peer_roster-IsWellFormed a roster i t h =
      let (p, q, r, v, e) = build_sound a roster h in
      let sum : roster.not_after_ms ≡ a.issued_at_ms +ℤ a.ttl_ms =
        ap (λ ro. ro.not_after_ms) (sym e)
        ∙ add64-+ℤ a.issued_at_ms a.ttl_ms i t (fits_iff a.issued_at_ms a.ttl_ms i t p q r) in
      (
        (validate_iff codec roster).0 v,
        sum,
        subst (λ n. a.issued_at_ms <ℤ n) (sym sum) (later a.issued_at_ms a.ttl_ms q),
      )
    where
      later : (x y : ℤ) → is_nonpositive y ≡ false → x <ℤ (x +ℤ y)
      later (pos x) (pos y) g = ground arith
      later (negsuc x) (pos y) g = ground arith
      later x (negsuc y) g = ground arith

  -- The one entry of a key in a roster that is built is the entry of the freshest claim of the key:
  -- a claim of those given with the latest time of issue and, among those with this time, the
  -- greatest proof. It has none if the key is a tombstone or no claim has the key.
  pub build_fabric_peer_roster-IsFreshest :
      (a : RosterAssembly) (roster : FabricPeerRoster) (k : Bytes)
      → build_fabric_peer_roster codec a ≡ ok roster
      → (mem_bytes k a.tombstones ≡ true → find mesh_key k roster.entries ≡ none)
        × (mem_bytes k a.tombstones ≡ false
            → (best : Option MeshRegistrationClaim) × IsFreshest k a.claims best
              × (find mesh_key k roster.entries ≡ entry_of best))
  build_fabric_peer_roster-IsFreshest a roster k h =
      let e = (build_sound a roster h).4 in
      let at : find mesh_key k roster.entries ≡ entry_of (find claim_key k (gathered a)) =
        ap (λ ro. find mesh_key k ro.entries) (sym e) ∙ find-draft k a in
      (
        λ dead.
            at
            ∙ ap entry_of (
                gather_tombstone k (dedup [] a.tombstones) a.claims
                  (mem-dedup_nil k a.tombstones ∙ dead)),
        λ alive. (
          find claim_key k (gathered a),
          gather-IsFreshest k (dedup [] a.tombstones) a.claims
              (mem-dedup_nil k a.tombstones ∙ alive),
          at,
        ),
      )
