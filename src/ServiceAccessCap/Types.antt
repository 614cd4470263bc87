-- ===== src/ServiceAccessCap/Types.antt =====
-- serviceaccesscap: the signed data of both source files, their errors, and what is not under the
-- repository: `json.Marshal`, SHA-256, base64 and the bytes of a text.
use xx_federation_contracts.Base.{String, Option}
use xx_federation_contracts.Base.Int.{ℤ}
use xx_federation_contracts.Base.Bytes.{Bytes}

pub record AccessCapability : Type 0 where
  pub subject_public_key : Bytes
  pub subject_spiffe : String
  pub resource : String
  pub scope : String
  pub issued_at_ms : ℤ
  pub expires_at_ms : ℤ
  pub issuer : String
  pub nonce : String
  pub signature : Bytes

pub record RevocationTombstone : Type 0 where
  pub resource : String
  pub nonce : String
  pub not_after_ms : ℤ
  pub issuer : String
  pub signature : Bytes

-- The sentinel errors, each alone or wrapped with a text.
pub data AccessError : Type 0 where
  bad_signature expired no_expiry unknown_signer empty_keyring bad_key : AccessError
  bad_resource proof_of_possession tombstone_signature tombstone_malformed : AccessError

pub record AccessCodec : Type 0 where
  pub marshal_capability : AccessCapability → Bytes
  pub marshal_tombstone : RevocationTombstone → Bytes
  pub sha256 : Bytes → Bytes
  pub utf8 : String → Bytes
  pub base64_encode : Bytes → String
  pub base64_decode : String → Option Bytes
