-- ===== src/OrderToCash/Manifest/Shaped.antt =====
-- contracts/contractpacks/ordertocash/pack.go: the pack's manifest passes the checks of
-- contracts/contractmanifest.
use Prim.Native.String.{◌++◌}
use xx_federation_contracts.Base.{
  ◌≡◌, refl, ap, ◌∙◌, String, Bool, true, false, ◌&&◌, not, List, [], ◌∷◌, All, map, some, arith,
  ◌==◌, is_empty,
}
use xx_federation_contracts.Base.Int.{ℤ, pos, is_nonpositive, leb_ℤ}
use xx_federation_contracts.Base.Bytes.{Bytes}
use xx_federation_contracts.Base.Hex.{hex, hex_filled, trim_space-hex}
use xx_federation_contracts.Base.Text.{
  trim_space, trim_space_idem, marked, marked-++, trim_space-marked, is_space, trim_left,
  trim_right,
}
use xx_federation_contracts.Base.Slices.{compact, mem, normalize_strings}
use xx_federation_contracts.Base.Sort.{insert, sort, sort-All}
use xx_federation_contracts.ContractManifest.Types.{Contract, made, elements}
use xx_federation_contracts.ContractManifest.Normal.Settled.{settled}
use xx_federation_contracts.ContractManifest.Normal.{
  contract_key, less_contract, normalize_contract, normalize_string_slice, normalize_each,
  normalize_contracts, normalize_manifest,
}
use xx_federation_contracts.ContractManifest.Shape.{
  facade_for_action, expected_method_scope, validate_contract, validate_contracts,
  validate_manifest_shape,
}
use xx_federation_contracts.OrderToCash.Interactions.{Interaction, interactions}
use xx_federation_contracts.OrderToCash.Payload.{
  Pack, schema_hash_of, payload_schema_hash, interaction_by_contract_id, find_interaction,
}
use xx_federation_contracts.OrderToCash.Manifest.{
  ManifestInput, positive_or, egress_prefix, contract_of, pack_contracts, pack_manifest,
}

-- An interaction that is found by its identifier, and whose texts are there.
abbrev IsListed : Interaction → Type 0
IsListed i =
    (interaction_by_contract_id i.contract_id ≡ some i)
    × ((trim_space i.contract_id == "") ≡ false)
    × ((trim_space i.schema_ref == "") ≡ false)
    × (marked ("." ++ i.business_action) ≡ true)

interactions-IsListed : All IsListed interactions
unfolding interaction_by_contract_id find_interaction trim_space trim_left trim_right is_space
interactions-IsListed = (
  (refl, refl, refl, refl),
  (
    (refl, refl, refl, refl),
    (
      (refl, refl, refl, refl),
      (
        (refl, refl, refl, refl),
        ((refl, refl, refl, refl), ((refl, refl, refl, refl), ((refl, refl, refl, refl), tt))),
      ),
    ),
  ),
)

positive_default :
    (n : ℤ) (m : ℤ) → is_nonpositive m ≡ false → is_nonpositive (positive_or m n) ≡ false
positive_default n m h = ground arith

module _ (pack : Pack) (hashed : (m : Bytes) → is_empty (pack.sha256 m) ≡ false) where
  hex_hashed : (bytes : Bytes) → is_empty bytes ≡ false → (hex bytes == "") ≡ false
  hex_hashed [] h = ground arith
  hex_hashed (b ∷ bytes) h = hex_filled b bytes

  contract_shaped :
      (input : ManifestInput) (i : Interaction)
      → is_empty (normalize_strings input.partner_link_ids) ≡ false
      → IsListed i
      → validate_contract (normalize_contract (contract_of pack input i)) ≡ true
  unfolding validate_contract normalize_contract contract_of payload_schema_hash trim_space
      trim_left trim_right is_space facade_for_action expected_method_scope normalize_string_slice
      elements normalize_strings sort insert compact
  contract_shaped input i linked (found, id, ref, action) =
      let hash : (trim_space (payload_schema_hash pack i.contract_id) == "") ≡ false =
        ap (λ o. trim_space (schema_hash_of pack o) == "") found
        ∙ ap (λ t. t == "") (trim_space-hex (pack.sha256 (pack.utf8 i.schema_json)))
        ∙ hex_hashed (pack.sha256 (pack.utf8 i.schema_json)) (hashed (pack.utf8 i.schema_json)) in
      let egress : (trim_space
              (egress_prefix input.egress_policy_prefix ++ ("." ++ i.business_action))
            == "")
          ≡ false =
        trim_space-marked (egress_prefix input.egress_policy_prefix ++ ("." ++ i.business_action)) (
          marked-++ (egress_prefix input.egress_policy_prefix) ("." ++ i.business_action) action) in
      let links : is_empty
            (elements (normalize_string_slice (made (normalize_strings input.partner_link_ids))))
          ≡ false =
        ap (λ s. is_empty (elements s)) (settled input.partner_link_ids linked) ∙ linked in
      let bytes : is_nonpositive (positive_or (pos 32768) input.max_payload_bytes) ≡ false =
        positive_default input.max_payload_bytes (pos 32768) refl in
      let window : is_nonpositive (positive_or (pos 86400) input.replay_window_secs) ≡ false =
        positive_default input.replay_window_secs (pos 86400) refl in
      rw (id, ref, hash, egress, links, bytes, window) refl

  contracts_shaped :
      (input : ManifestInput) (is : List Interaction)
      → is_empty (normalize_strings input.partner_link_ids) ≡ false
      → All IsListed is
      → All (λ c. validate_contract c ≡ true) (normalize_each (map (contract_of pack input) is))
  unfolding normalize_each
  contracts_shaped input [] linked h = tt
  contracts_shaped input (i ∷ is) linked (p, h) =
      (contract_shaped input i linked p, contracts_shaped input is linked h)

-- No key is seen twice.
abbrev new_keys : List String → List Contract → Bool
new_keys seen [] = true
new_keys seen (c ∷ cs) = not (mem (contract_key c) seen) && new_keys (contract_key c ∷ seen) cs

contracts_valid :
    (seen : List String) (cs : List Contract)
    → All (λ c. validate_contract c ≡ true) cs
    → new_keys seen cs ≡ true
    → validate_contracts seen cs ≡ true
unfolding validate_contracts
contracts_valid seen [] h k = refl
contracts_valid seen (c ∷ cs) (p, h) k =
    ground (arith, p, contracts_valid (contract_key c ∷ seen) cs h)

pack_keys :
    (pack : Pack) (input : ManifestInput)
    → new_keys [] (normalize_contracts (pack_contracts pack input)) ≡ true
unfolding normalize_contracts pack_contracts normalize_each normalize_contract sort insert
    trim_space trim_left trim_right is_space
pack_keys pack input = refl

pack_nonempty :
    (pack : Pack) (input : ManifestInput)
    → is_empty (normalize_contracts (pack_contracts pack input)) ≡ false
unfolding normalize_contracts pack_contracts normalize_each normalize_contract sort insert
    trim_space trim_left trim_right is_space
pack_nonempty pack input = refl

pack_valid :
    (pack : Pack)
    → ((m : Bytes) → is_empty (pack.sha256 m) ≡ false)
    → (input : ManifestInput) → is_empty (normalize_strings input.partner_link_ids) ≡ false
    → validate_contracts [] (normalize_contracts (pack_contracts pack input)) ≡ true
unfolding normalize_contracts pack_contracts
pack_valid pack hashed input linked =
    contracts_valid [] (normalize_contracts (pack_contracts pack input))
      (sort-All less_contract (λ c. validate_contract c ≡ true)
        (normalize_each (pack_contracts pack input))
        (contracts_shaped pack hashed input interactions linked interactions-IsListed))
      (pack_keys pack input)

-- The pack's manifest passes the shape check of the manifests once it is normalised, as `Sign` does:
-- with seven valid contracts of different keys, whatever the limits and the egress policy prefix. The
-- input has a partner link, a tenant, a manifest identifier and a signing key that are not blank, and
-- expires after a positive time of issue; SHA-256 gives at least one byte.
pub pack_manifest-shaped :
    (pack : Pack)
    → ((m : Bytes) → is_empty (pack.sha256 m) ≡ false)
    → (input : ManifestInput) → is_empty (normalize_strings input.partner_link_ids) ≡ false
    → (trim_space input.tenant_id == "") ≡ false
    → (trim_space input.manifest_id == "") ≡ false
    → (trim_space input.signing_key_id == "") ≡ false
    → is_nonpositive input.issued_at_ms ≡ false
    → leb_ℤ input.expires_at_ms input.issued_at_ms ≡ false
    → validate_manifest_shape (normalize_manifest (pack_manifest pack input)) ≡ true
unfolding validate_manifest_shape normalize_manifest pack_manifest trim_space trim_left trim_right
    is_space
pack_manifest-shaped pack hashed input linked tenant id key issued expires =
    let valid = pack_valid pack hashed input linked in
    let twice : (s : String)
        → (trim_space s == "") ≡ false
        → (trim_space (trim_space s) == "") ≡ false =
      λ s h. ap (λ t. t == "") (trim_space_idem s) ∙ h in
    rw
      (
        twice input.tenant_id tenant,
        twice input.manifest_id id,
        twice input.signing_key_id key,
        issued,
        expires,
        valid,
        pack_nonempty pack input,
      )
      refl
