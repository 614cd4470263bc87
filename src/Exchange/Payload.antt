-- ===== src/Exchange/Payload.antt =====
-- contracts/exchange/exchange.go: the checks of a payload against its action and hash.
use xx_federation_contracts.Base.{
  ℕ, String, Bool, true, false, ◌&&◌, ◌||◌, not, List, map, Option, none, some, ◌==◌, leb, nat_eq,
  is_empty, length, if◌then◌else◌, ◌+◌,
}
use xx_federation_contracts.Base.Int.{pos, ltb_ℤ}
use xx_federation_contracts.Base.Text.{trim_space}
use xx_federation_contracts.Base.Hex.{hex}
use xx_federation_contracts.Exchange.Names.{payload_encoding_json}
use xx_federation_contracts.Exchange.Types.{
  Envelope, ActionContract, DispatchResult, ManifestDiscoveryResult,
}
use xx_federation_contracts.Exchange.Topology.{Json, codes, same_codes, private_topology_value}

-- What is not under the repository: the hash function, the bytes of a text, the JSON decoder,
-- and `json.Marshal` of a discovery result.
pub record Platform : Type 0 where
  pub sha256 : List ℕ → List ℕ
  pub utf8 : String → List ℕ
  pub json_unmarshal : List ℕ → Option Json
  pub json_marshal_discovery : ManifestDiscoveryResult → Option String

-- One letter of `strings.EqualFold` against a hexadecimal text: the letters that fold to ASCII.
unfoldable pub fold : ℕ → ℕ
fold c =
    if leb b'A' c && leb c b'Z'
    then c + 32
    else if nat_eq c 0x212a
    then b'k'
    else if nat_eq c 0x17f
    then b's'
    else c

-- `strings.EqualFold`, of which one side is always a hexadecimal digest.
unfoldable pub equal_fold : String → String → Bool
unfolding fold same_codes
equal_fold s t = same_codes (map fold (codes s)) (map fold (codes t))

module _ (platform : Platform) where
  open platform use {sha256, utf8, json_unmarshal}

  abbrev decoded_private : Option Json → Bool
  decoded_private none = true
  decoded_private (some value) = private_topology_value value

  -- A payload that is not JSON counts as private.
  unfoldable pub contains_private_topology : List ℕ → String → Bool
  contains_private_topology payload encoding =
      if is_empty payload
      then false
      else if not (encoding == "") && not (encoding == payload_encoding_json)
      then false
      else decoded_private (json_unmarshal payload)

  -- Whether `validatePayload` returns nil; its errors are all alike and are not read.
  unfoldable pub validate_payload : Envelope → ActionContract → Bool
  unfolding contains_private_topology
  validate_payload env action =
      not (
        not (action.payload_encoding == "")
        && not (env.payload_encoding == action.payload_encoding))
      && not (
          ltb_ℤ (pos 0) action.max_payload_bytes
          && ltb_ℤ action.max_payload_bytes (pos (length env.payload)))
      && equal_fold (hex (sha256 env.payload)) env.payload_hash_sha256
      && not (
          not action.private_topology_allowed
          && contains_private_topology env.payload env.payload_encoding)

  -- Whether `validateDispatchResult` returns nil.
  unfoldable pub validate_dispatch_result : DispatchResult → Bool
  unfolding contains_private_topology
  validate_dispatch_result result =
      trim_space result.payload_json == ""
      || not (contains_private_topology (utf8 result.payload_json) payload_encoding_json)
