-- ===== src/MembershipCap/Capability.antt =====
-- membershipcap/capability.go: capabilities, the proof of possession, handles and key texts.
use Prim.Native.String.{◌++◌}
use xx_federation_contracts.Base.{
  String, Bool, ◌&&◌, ◌||◌, not, [], Option, none, some, is_empty, if◌then◌else◌,
}
use xx_federation_contracts.Base.Int.{ℤ, pos, leb_ℤ, eq_ℤ}
use xx_federation_contracts.Base.Maps.{Map, lookup}
use xx_federation_contracts.Base.Bytes.{Bytes, same_bytes}
use xx_federation_contracts.Base.Ed25519.{
  Ed25519, has_size, private_key_size, public_key_size, signature_size,
}
use xx_federation_contracts.Base.Exec.{Result, ok, err}
use xx_federation_contracts.MembershipCap.Types.{
  Capability, Codec, MembershipError, bad_signature, expired, unknown_signer, bad_key,
  proof_of_possession,
}

-- `NotAfterMS != 0 && nowMS >= NotAfterMS`
unfoldable pub is_past : ℤ → ℤ → Bool
is_past not_after_ms now_ms = not (eq_ℤ not_after_ms (pos 0)) && leb_ℤ not_after_ms now_ms

-- `VerifyProofOfPossession`
unfoldable pub verify_proof_of_possession :
    Ed25519 → Bytes → Bytes → Bytes → Result MembershipError (Unit {0})
verify_proof_of_possession ed public_key challenge pop_signature =
    if not (has_size public_key public_key_size)
    then err bad_key
    else if is_empty challenge || not (has_size pop_signature signature_size)
    then err proof_of_possession
    else if not (ed.verify public_key challenge pop_signature)
    then err proof_of_possession
    else ok tt

module _ (codec : Codec) where
  open codec use {marshal_capability, sha256, utf8, base64_encode, base64_decode}

  -- `canonicalBytes`
  unfoldable pub canonical_bytes : Capability → Bytes
  canonical_bytes c = marshal_capability (record c { signature = [] })

  -- `TenantHandle`
  unfoldable pub tenant_handle : String → String → String
  tenant_handle tenant_id fabric_id =
      base64_encode
        (sha256 (utf8 ("membership-tenant-handle|" ++ (fabric_id ++ ("|" ++ tenant_id)))))

  -- `EncodePublicKey`
  unfoldable pub encode_public_key : Bytes → String
  encode_public_key public_key = base64_encode public_key

  -- `DecodePublicKey` from the decoded text on.
  unfoldable pub decoded_key : Option Bytes → Result MembershipError Bytes
  decoded_key none = err bad_key
  decoded_key (some bytes) = if not (has_size bytes public_key_size) then err bad_key else ok bytes

  -- `DecodePublicKey`
  unfoldable pub decode_public_key : String → Result MembershipError Bytes
  unfolding decoded_key
  decode_public_key s = decoded_key (base64_decode s)

  -- `ConstantTimeEqualHandle`
  unfoldable pub constant_time_equal_handle : String → String → Bool
  constant_time_equal_handle a b = same_bytes (utf8 a) (utf8 b)

  module _ (ed : Ed25519) where
    -- The capability that `Sign` returns.
    unfoldable pub stamp : String → Bytes → Capability → Capability
    stamp key_id private_key c = record c {
      signer_key_id = key_id;
      signature =
          ed.sign private_key
            (canonical_bytes (record c { signer_key_id = key_id; signature = [] }));
    }

    -- `Sign`
    unfoldable pub sign : String → Bytes → Capability → Result MembershipError Capability
    unfolding stamp
    sign key_id private_key c =
        if not (has_size private_key private_key_size)
        then err bad_key
        else if not (has_size c.libp2p_public_key public_key_size)
        then err bad_key
        else ok (stamp key_id private_key c)

    -- `Verify` from the look-up of the signer on.
    unfoldable pub verify_by : Option Bytes → Capability → ℤ → Result MembershipError (Unit {0})
    unfolding is_past
    verify_by none c now_ms = err unknown_signer
    verify_by (some public_key) c now_ms =
        if not (has_size public_key public_key_size)
        then err unknown_signer
        else if not (has_size c.libp2p_public_key public_key_size)
        then err bad_key
        else if is_past c.not_after_ms now_ms
        then err expired
        else if not (has_size c.signature signature_size)
        then err bad_signature
        else if not (ed.verify public_key (canonical_bytes c) c.signature)
        then err bad_signature
        else ok tt

    -- `Verify`
    unfoldable pub verify : Capability → Map Bytes → ℤ → Result MembershipError (Unit {0})
    unfolding verify_by
    verify c trusted now_ms = verify_by (lookup c.signer_key_id trusted) c now_ms
