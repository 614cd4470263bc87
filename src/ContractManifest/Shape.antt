-- ===== src/ContractManifest/Shape.antt =====
-- contracts/contractmanifest/manifest.go: the actions that a contract may name, and the shape that a
-- manifest must have.
pub mod Valid
use Prim.Native.String.{◌++◌}
use xx_federation_contracts.Base.{
  ℕ, String, Bool, true, false, ◌&&◌, ◌||◌, not, List, [], ◌∷◌, Option, none, some, ◌==◌, any,
  is_empty, if◌then◌else◌,
}
use xx_federation_contracts.Base.Int.{ℤ, is_nonpositive, leb_ℤ}
use xx_federation_contracts.Base.Maps.{is_some}
use xx_federation_contracts.Base.Slices.{mem}
use xx_federation_contracts.Base.Text.{trim_space}
use xx_federation_contracts.Base.Exec.{Result, ok, err}
use xx_federation_contracts.Exchange.Names.{
  action_get_service_catalog_view, action_open_federation_transaction,
  action_create_federation_room, action_submit_federation_message, action_request_builder_work,
  action_submit_federation_result, action_deliver_builder_work_result, action_request_for_quote,
  action_submit_quote, action_submit_purchase_order, action_confirm_order,
  action_update_shipment_status, action_issue_invoice, action_update_payment_status,
  facade_get_service_catalog_view, facade_open_federation_transaction,
  facade_create_federation_room, facade_submit_federation_message, facade_request_builder_work,
  facade_submit_federation_result, facade_deliver_builder_work_result,
  facade_submit_commercial_event,
}
use xx_federation_contracts.ContractManifest.Types.{
  Contract, Manifest, ManifestError, invalid, elements,
}
use xx_federation_contracts.ContractManifest.Normal.{contract_key}

abbrev pub schema_version : String
schema_version = "builders.federation.service_contract_manifest.v1"

-- The seven order-to-cash actions, which both switches list together.
unfoldable pub is_commercial : String → Bool
is_commercial action =
    action == action_request_for_quote
    || action == action_submit_quote
    || action == action_submit_purchase_order
    || action == action_confirm_order
    || action == action_update_shipment_status
    || action == action_issue_invoice
    || action == action_update_payment_status

-- `facadeForAction`: the facade method and whether it mutates.
unfoldable pub facade_for_action : String → Option (String × Bool)
unfolding is_commercial
facade_for_action action =
    let a = trim_space action in
    if a == action_get_service_catalog_view
    then some (facade_get_service_catalog_view, false)
    else if a == action_open_federation_transaction
    then some (facade_open_federation_transaction, true)
    else if a == action_create_federation_room
    then some (facade_create_federation_room, true)
    else if a == action_submit_federation_message
    then some (facade_submit_federation_message, true)
    else if a == action_request_builder_work
    then some (facade_request_builder_work, true)
    else if a == action_submit_federation_result
    then some (facade_submit_federation_result, true)
    else if a == action_deliver_builder_work_result
    then some (facade_deliver_builder_work_result, true)
    else if is_commercial a
    then some (facade_submit_commercial_event, true)
    else none

-- `expectedMethodScope`
unfoldable pub expected_method_scope : String → String
unfolding is_commercial
expected_method_scope action =
    let a = trim_space action in
    if a == action_get_service_catalog_view
    then "federation.get_service_catalog_view"
    else if a == action_open_federation_transaction
    then "federation.open_federation_transaction"
    else if a == action_create_federation_room
    then "federation.create_federation_room"
    else if a == action_submit_federation_message
    then "federation.submit_federation_message"
    else if a == action_request_builder_work
    then "federation.request_builder_work"
    else if a == action_submit_federation_result
    then "federation.submit_federation_result"
    else if a == action_deliver_builder_work_result
    then "federation.deliver_builder_work_result"
    else if is_commercial a
    then "federation." ++ a
    else ""

-- `len(scopes) == 1 && scopes[0] == expected`
abbrev pub is_only : List String → String → Bool
is_only [] scope = false
is_only (x ∷ []) scope = x == scope
is_only (x ∷ (y ∷ more)) scope = false

-- Whether `validateContract` returns nil; its errors are all `ErrManifestInvalid`.
unfoldable pub validate_contract : Contract → Bool
unfolding facade_for_action expected_method_scope elements
validate_contract c =
    not (
      c.contract_id == ""
      || c.contract_version == ""
      || c.action == ""
      || c.payload_schema_ref == ""
      || c.payload_schema_hash_sha256 == ""
      || is_nonpositive c.max_payload_bytes
      || is_nonpositive c.replay_window_seconds
      || is_empty (elements c.allowed_partner_link_ids)
      || is_empty (elements c.allowed_gateway_method_scopes)
      || c.egress_policy_ref == ""
      || c.audit_class == ""
      || c.retention_class == "")
    && is_some (facade_for_action c.action)
    && is_only (elements c.allowed_gateway_method_scopes) (expected_method_scope c.action)

-- The loop over `seen`.
unfoldable pub validate_contracts : List String → List Contract → Bool
validate_contracts seen [] = true
validate_contracts seen (c ∷ cs) =
    validate_contract c
    && (not (mem (contract_key c) seen) && validate_contracts (contract_key c ∷ seen) cs)

-- Whether `validateManifestShape` returns nil.
unfoldable pub validate_manifest_shape : Manifest → Bool
unfolding validate_contracts
validate_manifest_shape m =
    not (
      not (m.schema_version == schema_version)
      || m.tenant_id == ""
      || m.manifest_id == ""
      || m.catalog_version == ""
      || m.signing_key_id == ""
      || is_nonpositive m.issued_at_ms
      || leb_ℤ m.expires_at_ms m.issued_at_ms
      || is_empty m.contracts)
    && validate_contracts [] m.contracts
