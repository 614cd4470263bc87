-- ===== src/ContractManifest/Shape/Valid.antt =====
-- contracts/contractmanifest/manifest.go: the two switches on actions agree, and what a valid shape
-- gives of each contract.
use xx_federation_contracts.Base.{
  String, ◌≡◌, refl, Bool, true, false, List, [], ◌∷◌, Option, none, some, ◌==◌, arith, All,
  if-related, not-true,
}
use Prim.Native.String.{◌++◌}
use xx_federation_contracts.ContractManifest.Normal.{contract_key}
use xx_federation_contracts.Exchange.Names.{
  action_get_service_catalog_view, action_open_federation_transaction,
  action_create_federation_room, action_submit_federation_message, action_request_builder_work,
  action_submit_federation_result, action_deliver_builder_work_result,
}
use xx_federation_contracts.Base.Text.{trim_space, filled-++}
use xx_federation_contracts.Exchange.Session.{allowed_facade_method}
use xx_federation_contracts.ContractManifest.Types.{Contract}
use xx_federation_contracts.ContractManifest.Shape.{
  is_commercial, facade_for_action, expected_method_scope, validate_contract, validate_contracts,
}

-- An action's facade and its method scope: both are given or neither, and a facade that is given is
-- one that the gateway allows.
abbrev pub IsAgreed : Option (String × Bool) → String → Type 0
IsAgreed none scope = (scope == "") ≡ true
IsAgreed (some (facade_method, mutating)) scope =
    ((scope == "") ≡ false) × (allowed_facade_method facade_method ≡ true)

commercial_scope : (action : String) → ("federation." ++ action == "") ≡ false
commercial_scope action = not-true _ (filled-++ "federation." action refl)

-- For every action: either no facade and no method scope is given for it, or its method scope is not
-- empty and its facade is one of those that the gateway may call.
pub facade_for_action-IsAgreed :
    (action : String) → IsAgreed (facade_for_action action) (expected_method_scope action)
unfolding facade_for_action expected_method_scope allowed_facade_method
facade_for_action-IsAgreed action =
    if-related IsAgreed (trim_space action == action_get_service_catalog_view) (refl, refl)
      (if-related IsAgreed (trim_space action == action_open_federation_transaction) (refl, refl)
        (if-related IsAgreed (trim_space action == action_create_federation_room) (refl, refl)
          (if-related IsAgreed (trim_space action == action_submit_federation_message) (refl, refl)
            (if-related IsAgreed (trim_space action == action_request_builder_work) (refl, refl)
              (if-related IsAgreed (trim_space action == action_submit_federation_result)
                (refl, refl)
                (if-related IsAgreed (trim_space action == action_deliver_builder_work_result)
                  (refl, refl)
                  (if-related IsAgreed (is_commercial (trim_space action))
                    (commercial_scope (trim_space action), refl) refl)))))))

pub validate_contracts-All :
    (seen : List String) (cs : List Contract)
    → validate_contracts seen cs ≡ true
    → All (λ c. validate_contract c ≡ true) cs
unfolding validate_contracts
validate_contracts-All seen [] h = tt
validate_contracts-All seen (c ∷ cs) h =
    (ground arith, validate_contracts-All (contract_key c ∷ seen) cs (ground arith))
