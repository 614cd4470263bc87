-- ===== src/MembershipCap/Types.antt =====
-- membershipcap: the signed data of all four source files, their errors, and what is not under the
-- repository: `json.Marshal`, SHA-256, base64, the bytes of a text and `netip.ParseAddr`.
use xx_federation_contracts.Base.{String, Bool, List, Option}
use xx_federation_contracts.Base.Int.{ℤ}
use xx_federation_contracts.Base.Bytes.{Bytes}

pub record Capability : Type 0 where
  pub libp2p_public_key : Bytes
  pub tenant_handle : String
  pub fabric_id : String
  pub capability_epoch : ℤ
  pub revocation_generation : ℤ
  pub not_after_ms : ℤ
  pub signer_key_id : String
  pub signature : Bytes

pub record RevocationEntry : Type 0 where
  pub libp2p_public_key : Bytes
  pub capability_epoch : ℤ
  pub revocation_generation : ℤ
  pub revoked : Bool

pub record RevocationList : Type 0 where
  pub fabric_id : String
  pub list_generation : ℤ
  pub issued_at_ms : ℤ
  pub not_after_ms : ℤ
  pub entries : List RevocationEntry
  pub signer_key_id : String
  pub signature : Bytes

pub record PeerRosterEntry : Type 0 where
  pub mesh_pub_key_ed25519 : Bytes
  pub pub_key_wg : Bytes
  pub mesh_ip : String
  pub fq_name : String
  pub role : String
  pub libp2p_peer_id : String
  pub endpoints : List String
  pub bootstrap_addrs : List String

pub record FabricPeerRoster : Type 0 where
  pub fabric_id : String
  pub epoch : ℤ
  pub issued_at_ms : ℤ
  pub not_after_ms : ℤ
  pub entries : List PeerRosterEntry
  pub tombstones : List Bytes
  pub signer_key_id : String
  pub signature : Bytes

pub record MeshRegistrationClaim : Type 0 where
  pub mesh_pub_key_ed25519 : Bytes
  pub pub_key_wg : Bytes
  pub mesh_ip : String
  pub fq_name : String
  pub role : String
  pub libp2p_peer_id : String
  pub endpoints : List String
  pub bootstrap_addrs : List String
  pub issued_at_ms : ℤ
  pub proof_of_possession : Bytes

-- The sentinel errors, each alone or wrapped with a text.
pub data MembershipError : Type 0 where
  bad_signature expired unknown_signer bad_key proof_of_possession : MembershipError
  revocation_signature revocation_expired revocation_signer : MembershipError
  peer_roster_signature peer_roster_expired peer_roster_signer : MembershipError
  peer_roster_entry peer_roster_epoch mesh_registration roster_assembly : MembershipError

-- `parse_addr` is `netip.ParseAddr` followed by `String`, where it succeeds.
pub record Codec : Type 0 where
  pub marshal_capability : Capability → Bytes
  pub marshal_list : RevocationList → Bytes
  pub marshal_roster : FabricPeerRoster → Bytes
  pub sha256 : Bytes → Bytes
  pub utf8 : String → Bytes
  pub base64_encode : Bytes → String
  pub base64_decode : String → Option Bytes
  pub parse_addr : String → Option String
