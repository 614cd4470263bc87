-- ===== src/OrderToCash/Manifest/Resolved.antt =====
-- contracts/contractpacks/ordertocash/pack.go with contracts/contractmanifest/manifest.go: the pack's
-- validator on what the pack's own manifest resolves to.
use xx_federation_contracts.Base.{◌≡◌, refl, some, eq_refl}
use xx_federation_contracts.Base.Bytes.{Bytes}
use xx_federation_contracts.Base.Text.{trim_space, trim_left, trim_right, is_space}
use xx_federation_contracts.Base.Exec.{ok}
use xx_federation_contracts.Exchange.Types.{ContractRef, ActionContract}
use xx_federation_contracts.ContractManifest.Types.{Contract}
use xx_federation_contracts.ContractManifest.Shape.{facade_for_action}
use xx_federation_contracts.ContractManifest.Cache.{to_exchange_action, exchange_action}
use xx_federation_contracts.OrderToCash.Interactions.{Interaction}
use xx_federation_contracts.OrderToCash.Payload.{
  Pack, interaction_by_contract_id, payload_schema_hash, validate_payload,
}
use xx_federation_contracts.OrderToCash.Manifest.{
  ManifestInput, contract_of, is_narrowed, validate_for, validate_gateway_exchange_payload,
}

-- The reference that names a contract by its identifier, version and schema.
abbrev pub RefersTo : ContractRef → Contract → Type 0
RefersTo ref c =
    (ref.contract_id ≡ c.contract_id)
    × (ref.contract_version ≡ c.contract_version)
    × (ref.payload_schema_hash_sha256 ≡ c.payload_schema_hash_sha256)

-- For each interaction of the pack, the action of its contract in the pack's manifest is one that the
-- pack's validator takes: of a reference to this contract, it accepts exactly the payloads that
-- `ValidatePayload` accepts.
pub contract_of-validate :
    (pack : Pack) (input : ManifestInput) (i : Interaction) (ref : ContractRef) (payload : Bytes)
    → interaction_by_contract_id i.contract_id ≡ some i
    → RefersTo ref (contract_of pack input i)
    → (action : ActionContract) × (to_exchange_action (contract_of pack input i) ≡ ok action)
      × (validate_gateway_exchange_payload pack
            (record { contract = ref; action = action; payload = payload })
          ≡ validate_payload pack i.contract_id payload)
unfolding to_exchange_action exchange_action contract_of facade_for_action
    validate_gateway_exchange_payload validate_for is_narrowed trim_space trim_left trim_right
    is_space
contract_of-validate pack input i ref payload found (id, version, hash) = (
  _,
  refl,
  rw (id, found) (rw (version, hash) (rw (eq_refl (payload_schema_hash pack i.contract_id)) refl)),
)
