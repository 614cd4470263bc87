-- ===== src/MembershipCap/Assembly/Draft.antt =====
-- membershipcap/assemble.go: the tombstones and the entries of the roster before its validation.
use xx_federation_contracts.Base.{
  ◌≡◌, refl, ap, ◌∙◌, inl, inr, true, false, ◌||◌, List, [], ◌∷◌, arith, map, Bool-cases, Option,
  none, some, if◌then◌else◌,
}
use xx_federation_contracts.Base.Bytes.{Bytes, same_bytes, same_iff}
use xx_federation_contracts.Base.Keyed.{find, find-sort, IsDistinct}
use xx_federation_contracts.MembershipCap.Types.{MeshRegistrationClaim, PeerRosterEntry}
use xx_federation_contracts.MembershipCap.Roster.{
  mem_bytes, mesh_key, own_key, sorted_roster_entries,
}
use xx_federation_contracts.MembershipCap.Registration.{to_roster_entry}
use xx_federation_contracts.MembershipCap.Assembly.{
  RosterAssembly, claim_key, dedup, gather, draft_roster,
}
use xx_federation_contracts.MembershipCap.Assembly.Freshest.{gather-IsDistinct}

mem-dedup :
    (k : Bytes) (tomb ts : List Bytes)
    → (mem_bytes k tomb || mem_bytes k (dedup tomb ts)) ≡ (mem_bytes k tomb || mem_bytes k ts)
unfolding dedup
mem-dedup k tomb [] = refl
mem-dedup k tomb (t ∷ ts) =
    let at : same_bytes t k ≡ true → mem_bytes t tomb ≡ mem_bytes k tomb =
      λ same. ap (λ j. mem_bytes j tomb) ((same_iff _ _).0 same) in
    ground (arith, mem-dedup k tomb ts, mem-dedup k (t ∷ tomb) ts, at)

-- The tombstones are the ones given.
pub mem-dedup_nil : (k : Bytes) (ts : List Bytes) → mem_bytes k (dedup [] ts) ≡ mem_bytes k ts
mem-dedup_nil k ts = mem-dedup k [] ts

find-own :
    (k : Bytes) (ts : List Bytes) → find own_key k ts ≡ (if mem_bytes k ts then some k else none)
unfolding find
find-own k [] = refl
find-own k (t ∷ ts) = ground (arith, find-own k ts, same_iff t k)

pub find-dedup :
    (k : Bytes) (ts : List Bytes)
    → find own_key k (dedup [] ts) ≡ (if mem_bytes k ts then some k else none)
find-dedup k ts =
    find-own k (dedup [] ts) ∙ ap (λ b. if b then some k else none) (mem-dedup_nil k ts)

mem-dedup_seen :
    (k : Bytes) (tomb ts : List Bytes)
    → mem_bytes k tomb ≡ true
    → mem_bytes k (dedup tomb ts) ≡ false
unfolding dedup
mem-dedup_seen k tomb [] h = refl
mem-dedup_seen k tomb (t ∷ ts) h =
    let at : same_bytes t k ≡ true → mem_bytes t tomb ≡ mem_bytes k tomb =
      λ same. ap (λ j. mem_bytes j tomb) ((same_iff _ _).0 same) in
    ground (arith, mem-dedup_seen k tomb ts, mem-dedup_seen k (t ∷ tomb) ts, at)

dedup_seen-IsDistinct : (tomb ts : List Bytes) → IsDistinct own_key (dedup tomb ts)
unfolding dedup find
dedup_seen-IsDistinct tomb [] = tt
dedup_seen-IsDistinct tomb (t ∷ ts) = elim (Bool-cases (mem_bytes t tomb)) [
  | inl dead ↦ rw dead (dedup_seen-IsDistinct tomb ts)
  | inr alive ↦ rw alive (
    find-own t (dedup (t ∷ tomb) ts) ∙ ground (arith, mem-dedup_seen t (t ∷ tomb) ts, same_iff t t),
    dedup_seen-IsDistinct (t ∷ tomb) ts,
  )
]

-- No tombstone is repeated.
pub dedup-IsDistinct : (ts : List Bytes) → IsDistinct own_key (dedup [] ts)
dedup-IsDistinct = dedup_seen-IsDistinct []

abbrev pub entry_of : Option MeshRegistrationClaim → Option PeerRosterEntry
entry_of none = none
entry_of (some c) = some (to_roster_entry c)

pub find-map :
    (k : Bytes) (cs : List MeshRegistrationClaim)
    → find mesh_key k (map to_roster_entry cs) ≡ entry_of (find claim_key k cs)
unfolding find to_roster_entry
find-map k [] = refl
find-map k (c ∷ cs) = ground (arith, find-map k cs)

pub map-IsDistinct :
    (cs : List MeshRegistrationClaim)
    → IsDistinct claim_key cs
    → IsDistinct mesh_key (map to_roster_entry cs)
unfolding to_roster_entry
map-IsDistinct [] d = d
map-IsDistinct (c ∷ cs) (h, d) = (find-map (claim_key c) cs ∙ ap entry_of h, map-IsDistinct cs d)

abbrev pub gathered : RosterAssembly → List MeshRegistrationClaim
gathered a = gather (dedup [] a.tombstones) [] a.claims

pub gathered-IsDistinct :
    (a : RosterAssembly) → IsDistinct mesh_key (map to_roster_entry (gathered a))
gathered-IsDistinct a =
    map-IsDistinct (gathered a) (gather-IsDistinct (dedup [] a.tombstones) [] a.claims tt)

-- The entry of each key, in the roster before its validation.
pub find-draft :
    (k : Bytes) (a : RosterAssembly)
    → find mesh_key k (draft_roster a).entries ≡ entry_of (find claim_key k (gathered a))
unfolding draft_roster sorted_roster_entries
find-draft k a =
    find-sort mesh_key k (map to_roster_entry (gathered a)) (gathered-IsDistinct a)
    ∙ find-map k (gathered a)
