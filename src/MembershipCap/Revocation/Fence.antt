-- ===== src/MembershipCap/Revocation/Fence.antt =====
-- membershipcap/revocation.go: what `Check` says of a capability.
use xx_federation_contracts.Base.{
  ◌≡◌, refl, sym, ◌∙◌, Bool, true, false, ◌&&◌, ◌||◌, List, [], ◌∷◌, any, if◌then◌else◌, arith,
}
use xx_federation_contracts.Base.Bytes.{same_bytes}
use xx_federation_contracts.Base.Keyed.{less_key}
use xx_federation_contracts.Base.Sort.{any-sort}
use xx_federation_contracts.MembershipCap.Types.{Capability, RevocationEntry, RevocationList}
use xx_federation_contracts.MembershipCap.Revocation.{
  FenceStatus, fence_unknown, fence_valid, fence_revoked, entry_key, supersedes, check_entries,
  check, sorted_entries,
}

abbrev pub concerns : Capability → RevocationEntry → Bool
concerns c entry = same_bytes entry.libp2p_public_key c.libp2p_public_key

-- The specification: revoked if any entry of the key supersedes the capability, and else valid if
-- there is an entry of the key.
unfoldable pub fence : List RevocationEntry → Capability → FenceStatus
fence entries c =
    if any (λ entry. concerns c entry && supersedes entry c) entries
    then fence_revoked
    else if any (concerns c) entries
    then fence_valid
    else fence_unknown

check_entries-fence :
    (found : Bool) (entries : List RevocationEntry) (c : Capability)
    → check_entries found entries c ≡ (
        if any (λ entry. concerns c entry && supersedes entry c) entries
        then fence_revoked
        else if found || any (concerns c) entries
        then fence_valid
        else fence_unknown)
unfolding check_entries
check_entries-fence found [] c = ground arith
check_entries-fence found (entry ∷ entries) c =
    ground (arith, check_entries-fence found entries c, check_entries-fence true entries c)

-- Revocation wins: whatever the order and the repetitions of its entries, a list says revoked of a
-- capability exactly if any entry of the capability's key is revoked or has a later epoch or
-- revocation generation; and else valid if it has an entry of the key, and unknown if it has none.
pub check-fence : (rl : RevocationList) (c : Capability) → check rl c ≡ fence rl.entries c
unfolding check fence
check-fence rl c = check_entries-fence false rl.entries c

-- A list says the same of every capability after its entries are sorted, as they are when it is
-- signed and verified.
pub check-sorted_entries :
    (rl : RevocationList) (c : Capability)
    → check (record rl { entries = sorted_entries rl.entries }) c ≡ check rl c
unfolding sorted_entries fence
check-sorted_entries rl c =
    check-fence (record rl { entries = sorted_entries rl.entries }) c
    ∙ rw
        (
          any-sort (less_key entry_key) (λ entry. concerns c entry && supersedes entry c)
              rl.entries,
          any-sort (less_key entry_key) (concerns c) rl.entries,
        )
        refl
    ∙ sym (check-fence rl c)
