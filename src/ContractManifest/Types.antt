-- ===== src/ContractManifest/Types.antt =====
-- contracts/contractmanifest/manifest.go: manifests, their errors and what signs them.
use xx_federation_contracts.Base.{
  ℕ, String, ◌≡◌, ◌==◌, Bool, true, false, List, [], Option, some, length,
}
use xx_federation_contracts.Base.Int.{ℤ}
use xx_federation_contracts.Base.Text.{trim_space}

pub record Signature : Type 0 where
  pub algorithm : String
  pub signature_b64 : String

-- `Signature{}`
abbrev pub empty_signature : Signature
empty_signature = record { algorithm = ""; signature_b64 = "" }

-- A slice of texts whose being nil shows: JSON prints nil as `null`, and an empty slice as `[]`.
pub data Slice : Type 0 where
  nil_slice : Slice
  made : List String → Slice

-- What `range` and `len` see of a slice.
unfoldable pub elements : Slice → List String
elements nil_slice = []
elements (made values) = values

-- Of `result_contract_ids`, which is printed with `omitempty`, nobody tells nil from empty.
pub record Contract : Type 0 where
  pub contract_id : String
  pub contract_version : String
  pub display_name : String
  pub action : String
  pub service_catalog_action : String
  pub payload_schema_ref : String
  pub payload_schema_hash_sha256 : String
  pub max_payload_bytes : ℤ
  pub requires_idempotency : Bool
  pub replay_window_seconds : ℤ
  pub allowed_partner_link_ids : Slice
  pub allowed_gateway_method_scopes : Slice
  pub private_topology_allowed : Bool
  pub egress_policy_ref : String
  pub audit_class : String
  pub retention_class : String
  pub result_contract_ids : List String

pub record Manifest : Type 0 where
  pub schema_version : String
  pub tenant_id : String
  pub manifest_id : String
  pub issued_at_ms : ℤ
  pub expires_at_ms : ℤ
  pub catalog_version : String
  pub signing_key_id : String
  pub contracts : List Contract
  pub manifest_hash_sha256 : String
  pub signature : Signature

-- The sentinel errors, each alone or wrapped with a text.
pub data ManifestError : Type 0 where
  unsigned expired hash_mismatch signature_invalid invalid not_found : ManifestError

-- What is not under the repository: JSON, SHA-256, base64 and Ed25519.
pub record Crypto : Type 0 where
  pub marshal : Manifest → List ℕ
  pub sha256 : List ℕ → List ℕ
  pub utf8 : String → List ℕ
  pub base64_encode : List ℕ → String
  pub base64_decode : String → Option (List ℕ)
  pub sign : List ℕ → List ℕ → List ℕ
  pub verify : List ℕ → List ℕ → List ℕ → Bool

-- `ed25519.PrivateKeySize`, `ed25519.PublicKeySize` and `ed25519.SignatureSize`.
abbrev pub private_key_size : ℕ
private_key_size = 64

abbrev pub public_key_size : ℕ
public_key_size = 32

abbrev pub signature_size : ℕ
signature_size = 64

-- The documented behaviour of base64 and Ed25519 that signing and verifying rely on, for a pair of
-- keys: the private key's signatures have their size and verify under the public key, and their
-- base64 texts hold no space around them, are not empty, and decode to what was encoded.
pub record KeyPair (crypto : Crypto) (private_key public_key : List ℕ) : Type 0 where
  pub private_size : length private_key ≡ private_key_size
  pub public_size : length public_key ≡ public_key_size
  pub sign_size : (m : List ℕ) → length (crypto.sign private_key m) ≡ signature_size
  pub sign_verifies : (m : List ℕ) → crypto.verify public_key m (crypto.sign private_key m) ≡ true
  pub encode_trimmed :
      (m : List ℕ)
      → trim_space (crypto.base64_encode (crypto.sign private_key m))
        ≡ crypto.base64_encode (crypto.sign private_key m)
  pub encode_filled :
      (m : List ℕ) → (crypto.base64_encode (crypto.sign private_key m) == "") ≡ false
  pub decode_encode :
      (m : List ℕ)
      → crypto.base64_decode (crypto.base64_encode (crypto.sign private_key m))
        ≡ some (crypto.sign private_key m)
