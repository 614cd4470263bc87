-- ===== src/MembershipCap/Roster/Valid.antt =====
-- membershipcap/peerroster.go: what `Validate` accepts.
use xx_federation_contracts.Base.{
  ◌≡◌, refl, ap, sym, ◌∙◌, ◌↔◌, true, false, ◌||◌, List, [], ◌∷◌, All, arith, Option, none, some,
}
use xx_federation_contracts.Base.Int.{pos, ltb_ℤ, ◌≤ℤ◌}
use xx_federation_contracts.Base.Maps.{is_some}
use xx_federation_contracts.Base.Bytes.{Bytes, same_iff}
use xx_federation_contracts.Base.Keyed.{find, IsDistinct}
use xx_federation_contracts.Base.Ed25519.{has_size, public_key_size}
use xx_federation_contracts.Base.Exec.{Result, ok, err}
use xx_federation_contracts.MembershipCap.Types.{
  FabricPeerRoster, PeerRosterEntry, Codec, MembershipError,
}
use xx_federation_contracts.MembershipCap.Roster.{
  mesh_key, mem_bytes, has_path_material, validate_entries, validate_tombstones, validate_removed,
  validate,
}

abbrev Unseen : List Bytes → List PeerRosterEntry → Type 0
Unseen seen = All (λ e. mem_bytes (mesh_key e) seen ≡ false)

-- A tombstone of a right size that is not among the keys seen.
abbrev pub IsRemoved : List Bytes → Bytes → Type 0
IsRemoved seen t = (has_size t public_key_size ≡ true) × (mem_bytes t seen ≡ false)

Unseen-find :
    (k : Bytes) (seen : List Bytes) (es : List PeerRosterEntry)
    → Unseen (k ∷ seen) es ↔ (Unseen seen es × (find mesh_key k es ≡ none))
unfolding find
Unseen-find k seen [] = (λ _. (tt, refl), λ _. tt)
Unseen-find k seen (e ∷ es) = (
  λ (h, hs).
      let (us, f) = (Unseen-find k seen es).0 hs in
      ((ground arith, us), ground (arith, same_iff (mesh_key e) k, same_iff k (mesh_key e))),
  λ ((h, hs), f). (
    ground (arith, same_iff (mesh_key e) k, same_iff k (mesh_key e)),
    (Unseen-find k seen es).1 (hs, ground arith),
  ),
)

module _ (codec : Codec) where
  abbrev HasMaterial : PeerRosterEntry → Type 0
  HasMaterial e = has_path_material codec e ≡ true

  -- What the loops accept: each part's condition on its own.
  abbrev pub IsWellFormed : FabricPeerRoster → Type 0
  IsWellFormed r =
      (pos 1 ≤ℤ r.epoch)
      × All HasMaterial r.entries
      × IsDistinct mesh_key r.entries
      × All (λ t. (has_size t public_key_size ≡ true) × (find mesh_key t r.entries ≡ none))
          r.tombstones

  abbrev Accepted : List Bytes → List PeerRosterEntry → Type 0
  Accepted seen es = All HasMaterial es × Unseen seen es × IsDistinct mesh_key es

  validate_entries_complete :
      (seen : List Bytes) (es : List PeerRosterEntry)
      → Accepted seen es
      → (out : List Bytes) × (validate_entries codec seen es ≡ ok out)
  unfolding validate_entries
  validate_entries_complete seen [] a = (seen, refl)
  validate_entries_complete seen (e ∷ es) ((m, ms), (u, us), (d, ds)) =
      let (out, h) =
        validate_entries_complete (mesh_key e ∷ seen) es
          (ms, (Unseen-find (mesh_key e) seen es).1 (us, d), ds) in
      (out, rw (m, u) h)

  validate_entries_sound :
      (seen : List Bytes) (es : List PeerRosterEntry) (out : List Bytes)
      → validate_entries codec seen es ≡ ok out
      → Accepted seen es
        × ((k : Bytes) → mem_bytes k out ≡ (mem_bytes k seen || is_some (find mesh_key k es)))
  unfolding validate_entries find
  validate_entries_sound seen [] out h = ((tt, tt, tt), λ k. ground arith)
  validate_entries_sound seen (e ∷ es) out h =
      let m : has_path_material codec e ≡ true = ground arith in
      let u : mem_bytes (mesh_key e) seen ≡ false = ground arith in
      let ((ms, us, ds), more) = validate_entries_sound (mesh_key e ∷ seen) es out (ground arith) in
      let (vs, d) = (Unseen-find (mesh_key e) seen es).0 us in
      (((m, ms), (u, vs), (d, ds)), λ k. ground (arith, more k))

  validate_tombstones_iff :
      (seen : List Bytes) (ts : List Bytes)
      → (validate_tombstones codec seen ts ≡ ok tt) ↔ All (IsRemoved seen) ts
  unfolding validate_tombstones
  validate_tombstones_iff seen [] = (λ _. tt, λ _. refl)
  validate_tombstones_iff seen (t ∷ ts) = (
    λ h. ((ground arith, ground arith), (validate_tombstones_iff seen ts).0 (ground arith)),
    λ ((s, f), more). rw (s, f) ((validate_tombstones_iff seen ts).1 more),
  )

  seen-find :
      (r : FabricPeerRoster) (seen ts : List Bytes)
      → ((k : Bytes) → mem_bytes k seen ≡ is_some (find mesh_key k r.entries))
      → All (IsRemoved seen) ts
        ↔ All (λ t. (has_size t public_key_size ≡ true) × (find mesh_key t r.entries ≡ none)) ts
  seen-find r seen [] same = (λ _. tt, λ _. tt)
  seen-find r seen (t ∷ ts) same = (
    λ ((s, f), more). (
      (s, missing (find mesh_key t r.entries) (sym (same t) ∙ f)),
      (seen-find r seen ts same).0 more,
    ),
    λ ((s, f), more). ((s, same t ∙ ap is_some f), (seen-find r seen ts same).1 more),
  )
    where
      missing : (o : Option PeerRosterEntry) → is_some o ≡ false → o ≡ none
      missing none h = refl
      missing (some e) h = ground arith

  removed_sound :
      (r : FabricPeerRoster) (loop : Result MembershipError (List Bytes))
      → validate_entries codec [] r.entries ≡ loop
      → validate_removed codec loop r.tombstones ≡ ok tt
      → pos 1 ≤ℤ r.epoch
      → IsWellFormed r
  unfolding validate_removed
  removed_sound r (err e) p h late = ground arith
  removed_sound r (ok seen) p h late =
      let ((ms, us, ds), same) = validate_entries_sound [] r.entries seen p in
      (
        late,
        ms,
        ds,
        (seen-find r seen r.tombstones same).0 ((validate_tombstones_iff seen r.tombstones).0 h),
      )

  -- `Validate` accepts a roster exactly if its epoch is at least 1; each entry has keys of the right
  -- sizes and a mesh address that parses, and a mesh key that no other entry has; and each tombstone
  -- has the size of a key and is the mesh key of no entry.
  pub validate_iff : (r : FabricPeerRoster) → (validate codec r ≡ ok tt) ↔ IsWellFormed r
  unfolding validate validate_removed
  validate_iff r = (
    λ h. removed_sound r (validate_entries codec [] r.entries) refl (ground arith) (ground arith),
    λ (late, ms, ds, ts).
        let (seen, e) = validate_entries_complete [] r.entries (ms, Unseen_nil r.entries, ds) in
        let same = (validate_entries_sound [] r.entries seen e).1 in
        let early : ltb_ℤ r.epoch (pos 1) ≡ false = ground (arith, late) in
        rw (early, e)
          ((validate_tombstones_iff seen r.tombstones).1
            ((seen-find r seen r.tombstones same).1 ts)),
  )
    where
      Unseen_nil : (es : List PeerRosterEntry) → Unseen [] es
      Unseen_nil [] = tt
      Unseen_nil (e ∷ es) = (refl, Unseen_nil es)
