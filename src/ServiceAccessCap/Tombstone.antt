-- ===== src/ServiceAccessCap/Tombstone.antt =====
-- serviceaccesscap/revocation.go: signed tombstones, each of one capability.
use xx_federation_contracts.Base.{
  String, ◌||◌, not, [], Option, none, some, is_empty, if◌then◌else◌, ◌==◌,
}
use xx_federation_contracts.Base.Int.{is_nonpositive}
use xx_federation_contracts.Base.Maps.{Map, lookup}
use xx_federation_contracts.Base.Bytes.{Bytes}
use xx_federation_contracts.Base.Ed25519.{
  Ed25519, has_size, private_key_size, public_key_size, signature_size,
}
use xx_federation_contracts.Base.Exec.{Result, ok, err}
use xx_federation_contracts.ServiceAccessCap.Types.{
  RevocationTombstone, AccessCodec, AccessError, unknown_signer, empty_keyring, bad_key,
  bad_resource, tombstone_signature, tombstone_malformed,
}
use xx_federation_contracts.ServiceAccessCap.Resource.{parse_resource, is_resource}

module _ (codec : AccessCodec) where
  -- `canonicalTombstoneBytes`
  unfoldable pub tombstone_bytes : RevocationTombstone → Bytes
  tombstone_bytes t = codec.marshal_tombstone (record t { signature = [] })

  module _ (ed : Ed25519) where
    -- The tombstone that `SignTombstone` returns.
    unfoldable pub stamp_tombstone : String → Bytes → RevocationTombstone → RevocationTombstone
    unfolding tombstone_bytes
    stamp_tombstone issuer_key_id private_key t = record t {
      issuer = issuer_key_id;
      signature =
          ed.sign private_key
            (tombstone_bytes (record t { issuer = issuer_key_id; signature = [] }));
    }

    -- `SignTombstone`
    unfoldable pub sign_tombstone :
        String → Bytes → RevocationTombstone → Result AccessError RevocationTombstone
    unfolding stamp_tombstone
    sign_tombstone issuer_key_id private_key t =
        if not (has_size private_key private_key_size)
        then err bad_key
        else if not (is_resource (parse_resource t.resource))
        then err bad_resource
        else if t.nonce == "" || is_nonpositive t.not_after_ms
        then err tombstone_malformed
        else ok (stamp_tombstone issuer_key_id private_key t)

    -- `Verify` from the look-up of the issuer on.
    unfoldable pub verify_tombstone_by :
        Option Bytes → RevocationTombstone → Result AccessError (Unit {0})
    unfolding tombstone_bytes
    verify_tombstone_by none t = err unknown_signer
    verify_tombstone_by (some public_key) t =
        if not (has_size public_key public_key_size)
        then err unknown_signer
        else if not (is_resource (parse_resource t.resource))
        then err bad_resource
        else if t.nonce == "" || is_nonpositive t.not_after_ms
        then err tombstone_malformed
        else if not (has_size t.signature signature_size)
        then err tombstone_signature
        else if not (ed.verify public_key (tombstone_bytes t) t.signature)
        then err tombstone_signature
        else ok tt

    -- `Verify`
    unfoldable pub verify_tombstone :
        RevocationTombstone → Map Bytes → Result AccessError (Unit {0})
    unfolding verify_tombstone_by
    verify_tombstone t trusted =
        if is_empty trusted
        then err empty_keyring
        else verify_tombstone_by (lookup t.issuer trusted) t
