-- ===== src/MembershipCap/Revocation.antt =====
-- membershipcap/revocation.go: signed revocation lists, and the fence that they are for capabilities.
pub mod Fence
use xx_federation_contracts.Base.{
  Bool, true, false, ◌&&◌, ◌||◌, not, String, List, [], ◌∷◌, Option, none, some, if◌then◌else◌,
}
use xx_federation_contracts.Base.Int.{ℤ, ltb_ℤ}
use xx_federation_contracts.Base.Maps.{Map, lookup}
use xx_federation_contracts.Base.Bytes.{Bytes, same_bytes}
use xx_federation_contracts.Base.Keyed.{find as find_by, less_key}
use xx_federation_contracts.Base.Sort.{sort}
use xx_federation_contracts.Base.Ed25519.{
  Ed25519, has_size, private_key_size, public_key_size, signature_size,
}
use xx_federation_contracts.Base.Exec.{Result, ok, err}
use xx_federation_contracts.MembershipCap.Types.{
  Capability, RevocationEntry, RevocationList, Codec, MembershipError, bad_key,
  revocation_signature, revocation_expired, revocation_signer,
}
use xx_federation_contracts.MembershipCap.Capability.{is_past}

pub data FenceStatus : Type 0 where
  fence_unknown fence_valid fence_revoked : FenceStatus

abbrev pub entry_key : RevocationEntry → Bytes
entry_key e = e.libp2p_public_key

-- `sortedEntries`
unfoldable pub sorted_entries : List RevocationEntry → List RevocationEntry
sorted_entries entries = sort (less_key entry_key) entries

-- `Find`; the source returns a zero entry and false for `none`.
unfoldable pub find : RevocationList → Bytes → Option RevocationEntry
find rl public_key = find_by entry_key public_key rl.entries

-- An entry that revokes or supersedes a capability of its key.
unfoldable pub supersedes : RevocationEntry → Capability → Bool
supersedes entry c =
    entry.revoked
    || ltb_ℤ c.capability_epoch entry.capability_epoch
    || ltb_ℤ c.revocation_generation entry.revocation_generation

-- The loop of `Check`, with `found` so far.
unfoldable pub check_entries : Bool → List RevocationEntry → Capability → FenceStatus
unfolding supersedes
check_entries found [] c = if not found then fence_unknown else fence_valid
check_entries found (entry ∷ entries) c =
    let passed = check_entries found entries c in
    let met = check_entries true entries c in
    if not (same_bytes entry.libp2p_public_key c.libp2p_public_key)
    then passed
    else if supersedes entry c
    then fence_revoked
    else met

-- `Check`
unfoldable pub check : RevocationList → Capability → FenceStatus
unfolding check_entries
check rl c = check_entries false rl.entries c

module _ (codec : Codec) where
  -- `revocationCanonicalBytes`
  unfoldable pub revocation_canonical_bytes : RevocationList → Bytes
  unfolding sorted_entries
  revocation_canonical_bytes rl =
      codec.marshal_list (record rl { signature = []; entries = sorted_entries rl.entries })

  module _ (ed : Ed25519) where
    -- The list that `SignRevocationList` returns.
    unfoldable pub stamp_list : String → Bytes → RevocationList → RevocationList
    stamp_list key_id private_key rl = record rl {
      signer_key_id = key_id;
      signature =
          ed.sign private_key
            (revocation_canonical_bytes (record rl { signer_key_id = key_id; signature = [] }));
    }

    -- `SignRevocationList`
    unfoldable pub sign_revocation_list :
        String → Bytes → RevocationList → Result MembershipError RevocationList
    unfolding stamp_list
    sign_revocation_list key_id private_key rl =
        if not (has_size private_key private_key_size)
        then err bad_key
        else ok (stamp_list key_id private_key rl)

    -- `Verify` from the look-up of the signer on.
    unfoldable pub verify_list_by :
        Option Bytes → RevocationList → ℤ → Result MembershipError (Unit {0})
    unfolding is_past
    verify_list_by none rl now_ms = err revocation_signer
    verify_list_by (some public_key) rl now_ms =
        if not (has_size public_key public_key_size)
        then err revocation_signer
        else if is_past rl.not_after_ms now_ms
        then err revocation_expired
        else if not (has_size rl.signature signature_size)
        then err revocation_signature
        else if not (ed.verify public_key (revocation_canonical_bytes rl) rl.signature)
        then err revocation_signature
        else ok tt

    -- `Verify`
    unfoldable pub verify_list : RevocationList → Map Bytes → ℤ → Result MembershipError (Unit {0})
    unfolding verify_list_by
    verify_list rl trusted now_ms = verify_list_by (lookup rl.signer_key_id trusted) rl now_ms
