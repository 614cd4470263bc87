-- ===== src/MembershipCap/Assembly/Order.antt =====
-- membershipcap/assemble.go: the order of the claims and of the tombstones.
use xx_federation_contracts.Base.{
  ◌≡◌, refl, ap, sym, ◌∙◌, inl, inr, true, false, List, [], All, arith, map, Bool-cases, Option,
  none, some, if◌then◌else◌,
}
use mathlib.Core.List.{Permᴰ}
use mathlib.Core.List.Permᴰ
use xx_federation_contracts.Base.Bytes.{Bytes, same_bytes, same_iff}
use xx_federation_contracts.Base.Keyed.{find, sort_unique}
use xx_federation_contracts.Base.Keyed.Permuted.{All-mem, All-perm}
use xx_federation_contracts.MembershipCap.Types.{MeshRegistrationClaim, Codec}
use xx_federation_contracts.MembershipCap.Roster.{
  mem_bytes, mesh_key, own_key, sorted_roster_entries, sorted_tombstones,
}
use xx_federation_contracts.MembershipCap.Registration.{to_roster_entry}
use xx_federation_contracts.MembershipCap.Assembly.{
  RosterAssembly, claim_key, stays, dedup, draft_roster, build_fabric_peer_roster,
}
use xx_federation_contracts.MembershipCap.Assembly.Freshest.{
  IsFreshest, gather-IsFreshest, gather_tombstone,
}
use xx_federation_contracts.MembershipCap.Assembly.Draft.{
  entry_of, gathered, gathered-IsDistinct, mem-dedup_nil, find-dedup, dedup-IsDistinct, find-map,
}

-- Claims of one key of which neither is fresher have one roster entry.
abbrev pub Agree : MeshRegistrationClaim → MeshRegistrationClaim → Type 0
Agree c d =
    same_bytes (claim_key c) (claim_key d) ≡ true
    → stays c d ≡ true
    → stays d c ≡ true
    → to_roster_entry c ≡ to_roster_entry d

abbrev pub AllAgree : List MeshRegistrationClaim → Type 0
AllAgree claims = All (λ c. All (Agree c) claims) claims

freshest_entry :
    (k : Bytes) (xs ys : List MeshRegistrationClaim) (v w : Option MeshRegistrationClaim)
    → Permᴰ xs ys
    → AllAgree xs
    → IsFreshest k xs v
    → IsFreshest k ys w
    → entry_of v ≡ entry_of w
freshest_entry k xs ys none none p agree f g = refl
freshest_entry k xs ys none (some w) p agree f (m, s, hs) =
    ground (arith, All-mem (λ c. same_bytes (claim_key c) k ≡ false) m (All-perm _ p f))
freshest_entry k xs ys (some v) none p agree (m, s, hs) g =
    ground
      (arith, All-mem (λ c. same_bytes (claim_key c) k ≡ false) m (All-perm _ (Permᴰ.symm p) g))
freshest_entry k xs ys (some v) (some w) p agree (m, s, hs) (n, t, ks) =
    let wv =
      All-mem (λ c. same_bytes (claim_key c) k ≡ true → stays w c ≡ true) m
        (All-perm _ (Permᴰ.symm p) ks) s in
    let vw =
      All-mem (λ c. same_bytes (claim_key c) k ≡ true → stays v c ≡ true) n (All-perm _ p hs) t in
    let agreed =
      All-mem (Agree v) n (All-perm (Agree v) p (All-mem (λ c. All (Agree c) xs) m agree)) in
    ap some (agreed ((same_iff _ _).1 ((same_iff _ k).0 s ∙ sym ((same_iff _ k).0 t))) vw wv)

mem-perm : (k : Bytes) {xs ys : List Bytes} → Permᴰ xs ys → mem_bytes k xs ≡ mem_bytes k ys
mem-perm k Permᴰ.nil = refl
mem-perm k (Permᴰ.cons e p) = ground (arith, ap (λ x. same_bytes x k) e, mem-perm k p)
mem-perm k (Permᴰ.swap e f) = ground (arith, ap (λ x. same_bytes x k) e, ap (λ x. same_bytes x k) f)
mem-perm k (Permᴰ.trans p q) = mem-perm k p ∙ mem-perm k q

entries_alike :
    (a b : RosterAssembly)
    → Permᴰ a.claims b.claims
    → Permᴰ a.tombstones b.tombstones
    → AllAgree a.claims
    → (k : Bytes)
    → find mesh_key k (map to_roster_entry (gathered a))
      ≡ find mesh_key k (map to_roster_entry (gathered b))
entries_alike a b p q agree k =
    let same : mem_bytes k (dedup [] a.tombstones) ≡ mem_bytes k (dedup [] b.tombstones) =
      mem-dedup_nil k a.tombstones ∙ mem-perm k q ∙ sym (mem-dedup_nil k b.tombstones) in
    find-map k (gathered a)
    ∙ elim (Bool-cases (mem_bytes k (dedup [] a.tombstones))) [
      | inl dead ↦ ap entry_of (
          gather_tombstone k (dedup [] a.tombstones) a.claims dead
          ∙ sym (gather_tombstone k (dedup [] b.tombstones) b.claims (sym same ∙ dead)))
      | inr alive ↦
          freshest_entry k a.claims b.claims (find claim_key k (gathered a))
            (find claim_key k (gathered b)) p agree
            (gather-IsFreshest k (dedup [] a.tombstones) a.claims alive)
            (gather-IsFreshest k (dedup [] b.tombstones) b.claims (sym same ∙ alive))
    ]
    ∙ sym (find-map k (gathered b))

draft_perm :
    (a : RosterAssembly) (claims : List MeshRegistrationClaim) (tombstones : List Bytes)
    → Permᴰ a.claims claims
    → Permᴰ a.tombstones tombstones
    → AllAgree a.claims
    → draft_roster (record a { claims = claims; tombstones = tombstones }) ≡ draft_roster a
unfolding draft_roster sorted_roster_entries sorted_tombstones
draft_perm a claims tombstones p q agree =
    let b = record a { claims = claims; tombstones = tombstones } in
    let entries =
      sort_unique mesh_key (map to_roster_entry (gathered a)) (map to_roster_entry (gathered b))
        (gathered-IsDistinct a) (gathered-IsDistinct b) (entries_alike a b p q agree) in
    let removed =
      sort_unique own_key (dedup [] a.tombstones) (dedup [] tombstones)
        (dedup-IsDistinct a.tombstones) (dedup-IsDistinct tombstones)
        (λ k.
          find-dedup k a.tombstones
          ∙ ap (λ m. if m then some k else none) (mem-perm k q)
          ∙ sym (find-dedup k tombstones)) in
    cc (entries, removed)

-- The result of a build, an error or the whole roster, does not depend on the order of the claims and
-- of the tombstones, if claims of one key, one time of issue and one proof have one roster entry.
pub build_fabric_peer_roster_perm :
    (codec : Codec) (a : RosterAssembly) (claims : List MeshRegistrationClaim)
    (tombstones : List Bytes)
    → Permᴰ a.claims claims
    → Permᴰ a.tombstones tombstones
    → AllAgree a.claims
    → build_fabric_peer_roster codec (record a { claims = claims; tombstones = tombstones })
      ≡ build_fabric_peer_roster codec a
unfolding build_fabric_peer_roster
build_fabric_peer_roster_perm codec a claims tombstones p q agree =
    rw (draft_perm a claims tombstones p q agree) refl
