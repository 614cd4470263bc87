-- ===== src/ServiceAccessCap/Capability.antt =====
-- serviceaccesscap/capability.go: capabilities, what they bind, the challenge of a request and its
-- proof of possession, and key texts.
use xx_federation_contracts.Base.{
  ℕ, String, Bool, false, ◌||◌, not, [], ◌++◌, Option, none, some, is_empty, if◌then◌else◌, ◌==◌,
}
use xx_federation_contracts.Base.Int.{ℤ, is_nonpositive, leb_ℤ}
use xx_federation_contracts.Base.Maps.{Map, lookup}
use xx_federation_contracts.Base.Bytes.{Bytes, same_bytes}
use xx_federation_contracts.Base.Frames.{frame}
use xx_federation_contracts.Base.Ed25519.{
  Ed25519, has_size, private_key_size, public_key_size, signature_size,
}
use xx_federation_contracts.Base.Exec.{Result, ok, err}
use xx_federation_contracts.ServiceAccessCap.Types.{
  AccessCapability, AccessCodec, AccessError, bad_signature, expired, no_expiry, unknown_signer,
  empty_keyring, bad_key, proof_of_possession, bad_resource,
}
use xx_federation_contracts.ServiceAccessCap.Resource.{parse_resource, is_resource}

-- `BindsPublicKey`
unfoldable pub binds_public_key : AccessCapability → Bytes → Bool
binds_public_key c public_key =
    if not (has_size public_key public_key_size)
      || not (has_size c.subject_public_key public_key_size)
    then false
    else same_bytes c.subject_public_key public_key

-- `VerifyProofOfPossession`
unfoldable pub verify_proof_of_possession :
    Ed25519 → Bytes → Bytes → Bytes → Result AccessError (Unit {0})
verify_proof_of_possession ed subject_public_key challenge pop_signature =
    if not (has_size subject_public_key public_key_size)
    then err bad_key
    else if is_empty challenge || not (has_size pop_signature signature_size)
    then err proof_of_possession
    else if not (ed.verify subject_public_key challenge pop_signature)
    then err proof_of_possession
    else ok tt

-- The width of `writeLenPrefixed`'s lengths.
abbrev pub prefix_width : ℕ
prefix_width = 4

abbrev pub pop_domain : String
pop_domain = "fed-svc-pop/v1"

module _ (codec : AccessCodec) where
  open codec use {marshal_capability, sha256, utf8, base64_encode, base64_decode}

  -- `AuthorizesResource`
  unfoldable pub authorizes_resource : AccessCapability → String → Bool
  authorizes_resource c served_namespace =
      if c.resource == "" || served_namespace == ""
      then false
      else same_bytes (utf8 c.resource) (utf8 served_namespace)

  -- What `Challenge` writes to the hash.
  unfoldable pub pop_message : String → Bytes → String → Bytes
  pop_message resource subject_public_key request_nonce =
      frame prefix_width (utf8 pop_domain)
      ++ (frame prefix_width (utf8 resource)
          ++ (frame prefix_width subject_public_key ++ frame prefix_width (utf8 request_nonce)))

  -- `Challenge`
  unfoldable pub pop_challenge : String → Bytes → String → Bytes
  unfolding pop_message
  pop_challenge resource subject_public_key request_nonce =
      sha256 (pop_message resource subject_public_key request_nonce)

  -- `EncodePublicKey`
  unfoldable pub encode_key : Bytes → String
  encode_key public_key = base64_encode public_key

  -- `DecodePublicKey` from the decoded text on.
  unfoldable pub key_of : Option Bytes → Result AccessError Bytes
  key_of none = err bad_key
  key_of (some bytes) = if not (has_size bytes public_key_size) then err bad_key else ok bytes

  -- `DecodePublicKey`
  unfoldable pub decode_key : String → Result AccessError Bytes
  unfolding key_of
  decode_key s = key_of (base64_decode s)

  -- `canonicalBytes`
  unfoldable pub access_bytes : AccessCapability → Bytes
  access_bytes c = marshal_capability (record c { signature = [] })

  module _ (ed : Ed25519) where
    -- The capability that `Sign` returns.
    unfoldable pub stamp_access : String → Bytes → AccessCapability → AccessCapability
    unfolding access_bytes
    stamp_access issuer_key_id private_key c = record c {
      issuer = issuer_key_id;
      signature =
          ed.sign private_key (access_bytes (record c { issuer = issuer_key_id; signature = [] }));
    }

    -- `Sign`
    unfoldable pub sign_access :
        String → Bytes → AccessCapability → Result AccessError AccessCapability
    unfolding stamp_access
    sign_access issuer_key_id private_key c =
        if not (has_size private_key private_key_size)
        then err bad_key
        else if not (has_size c.subject_public_key public_key_size)
        then err bad_key
        else if not (is_resource (parse_resource c.resource))
        then err bad_resource
        else if is_nonpositive c.expires_at_ms
        then err no_expiry
        else if leb_ℤ c.expires_at_ms c.issued_at_ms
        then err expired
        else ok (stamp_access issuer_key_id private_key c)

    -- `Verify` from the look-up of the issuer on.
    unfoldable pub verify_access_by :
        Option Bytes → AccessCapability → ℤ → Result AccessError (Unit {0})
    unfolding access_bytes
    verify_access_by none c now_ms = err unknown_signer
    verify_access_by (some public_key) c now_ms =
        if not (has_size public_key public_key_size)
        then err unknown_signer
        else if not (has_size c.subject_public_key public_key_size)
        then err bad_key
        else if not (is_resource (parse_resource c.resource))
        then err bad_resource
        else if is_nonpositive c.expires_at_ms
        then err no_expiry
        else if leb_ℤ c.expires_at_ms now_ms
        then err expired
        else if not (has_size c.signature signature_size)
        then err bad_signature
        else if not (ed.verify public_key (access_bytes c) c.signature)
        then err bad_signature
        else ok tt

    -- `Verify`
    unfoldable pub verify_access : AccessCapability → Map Bytes → ℤ → Result AccessError (Unit {0})
    unfolding verify_access_by
    verify_access c trusted now_ms =
        if is_empty trusted
        then err empty_keyring
        else verify_access_by (lookup c.issuer trusted) c now_ms
