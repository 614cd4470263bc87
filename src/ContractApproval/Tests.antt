-- ===== src/ContractApproval/Tests.antt =====
-- contracts/contractapproval: a pack is approved and pinned, and then revoked.
use xx_federation_contracts.Base.{List, ◌≡◌, ◌≢◌, refl, false, [], ◌∷◌, ne_of_test, ◌↔◌}
use xx_federation_contracts.Base.Int.{pos}
use xx_federation_contracts.Base.Hex.{hex}
use xx_federation_contracts.Base.Maps.{lookup}
use xx_federation_contracts.Base.Sort.{sort}
use xx_federation_contracts.Base.Text.{trim_space}
use xx_federation_contracts.Base.Slices.{normalize_strings}
use xx_federation_contracts.Base.Exec.{ok}
use xx_federation_contracts.Exchange.Types.{PolicyCheck, empty_action, empty_manifest}
use xx_federation_contracts.ContractApproval.Types.{
  ContractPin, ApprovalRecord, PartnerPin, PinInput, Hasher, state_approved, state_revoked,
}
use xx_federation_contracts.ContractApproval.Normal.{
  normalize_approval_record, normalize_pin_input, normalize_partner_pin, contains_string, pin_key,
  contract_pinned, normalize_each_pin, normalize_contract_pin, state_or_pending,
}
use xx_federation_contracts.ContractApproval.Valid.{
  is_incomplete, validate_approval_record, validate_partner_pin, pin_audit_hash,
}
use xx_federation_contracts.ContractApproval.Registry.{
  Registry, new_registry, put_approval, pin, identity, authorize_contract_approval,
}
use xx_federation_contracts.ContractApproval.Registry.Authorized.{IsApproved, authorize_iff}
use xx_federation_contracts.ContractApproval.Registry.Stored.{
  Request, approve, make_pin, IsSound, perform_all, perform_all_new-IsSound,
}
use xx_federation_contracts.ContractApproval.Registry.Revoked.{put_approval-revokes}
use xx_federation_contracts.ContractApproval.Registry.Pinned.{pin-authorize, pin-excludes}

abbrev hasher : Hasher
hasher = record { marshal_record = λ r. 1 ∷ []; marshal_pin = λ p. 2 ∷ []; sha256 = λ bytes. bytes }

abbrev listed_contract : ContractPin
listed_contract = record {
  contract_id = "c";
  contract_version = "1";
  payload_schema_hash_sha256 = "bb";
  service_catalog_id = "s";
  action = "act";
  service_catalog_action = "";
}

abbrev approval : ApprovalRecord
approval = record {
  tenant_id = "t";
  catalog_version = "1";
  pack_version = "p1";
  manifest_id = "m";
  manifest_hash_sha256 = "aa";
  state = state_approved;
  allowed_partner_link_ids = "link" ∷ [];
  contracts = listed_contract ∷ [];
  approved_by = "alice";
  approved_at_ms = pos 5;
  created_by = "bob";
  created_at_ms = pos 4;
  audit_binding_hash_sha256 = "";
}

abbrev revocation : ApprovalRecord
revocation = record approval { state = state_revoked }

abbrev registry : Registry
registry = record { records = ("aa", approval) ∷ []; pins = [] }

abbrev input : PinInput
input = record {
  tenant_id = " t";
  partner_link_id = "link";
  catalog_version = "1";
  pack_version = "p1";
  manifest_hash_sha256 = "aa";
  pinned_by = "alice";
  pinned_at_ms = pos 6;
  reason = "";
}

abbrev check : PolicyCheck
check = record {
  session = record {
    local_tenant_id = "t";
    local_gateway_id = "";
    remote_tenant_id = "";
    remote_gateway_id = "";
    remote_service_principal_id = "";
    partner_link_id = "link";
    partner_link_state = "";
    kill_switch_enabled = false;
    control_partner_link_id = "";
  };
  envelope = record {
    schema_version = "";
    envelope_id = "";
    correlation_id = "";
    idempotency_key = "";
    sent_at_ms = pos 0;
    expires_at_ms = pos 0;
    partner_link_id = "link";
    source = record { tenant_id = ""; gateway_id = ""; gateway_pool_id = "" };
    destination = record { tenant_id = ""; gateway_id = ""; gateway_pool_id = "" };
    contract = record {
      contract_id = "c";
      contract_version = "1";
      manifest_hash_sha256 = "aa";
      payload_schema_hash_sha256 = "bb";
    };
    action = "act";
    payload_encoding = "";
    payload_hash_sha256 = "";
    payload = [];
  };
  manifest = record empty_manifest { catalog_version = "1"; manifest_hash_sha256 = "aa" };
  action = empty_action;
}

abbrev made : PartnerPin
made = record {
  tenant_id = "t";
  partner_link_id = "link";
  catalog_version = "1";
  pack_version = "p1";
  manifest_hash_sha256 = "aa";
  previous_pack_version = "";
  previous_manifest_hash_sha256 = "";
  pinned_by = "alice";
  pinned_at_ms = pos 6;
  reason = "";
  audit_binding_hash_sha256 = "02";
}

pinned : (pin hasher input registry).0 ≡ ok made
unfolding pin validate_partner_pin pin_audit_hash normalize_pin_input normalize_partner_pin
    trim_space contains_string lookup hex pin_key
pinned = refl

revoked : (put_approval hasher revocation registry).0 ≡ ok tt
unfolding put_approval validate_approval_record normalize_approval_record normalize_each_pin
    normalize_contract_pin trim_space sort normalize_strings state_or_pending is_incomplete
revoked = refl

authorize_iff_example :
    (authorize_contract_approval registry check ≡ ok tt)
    ↔ IsApproved registry (identity check) check.envelope.contract check.envelope.action
authorize_iff_example = authorize_iff registry check

put_approval-revokes_example :
    authorize_contract_approval ((put_approval hasher revocation registry).1) check ≢ ok tt
unfolding normalize_approval_record state_or_pending identity trim_space
put_approval-revokes_example =
    put_approval-revokes hasher revocation registry check revoked (ne_of_test _ _ refl) refl

pin-authorize_example : authorize_contract_approval ((pin hasher input registry).1) check ≡ ok tt
unfolding normalize_pin_input identity trim_space lookup contract_pinned
pin-authorize_example =
    pin-authorize hasher input registry made check approval pinned refl refl refl

check_passes : authorize_contract_approval ((pin hasher input registry).1) check ≡ ok tt
unfolding normalize_pin_input identity trim_space lookup contract_pinned
check_passes = pin-authorize hasher input registry made check approval pinned refl refl refl

pin-excludes_example :
    (identity check).manifest_hash ≡ (normalize_pin_input input).manifest_hash_sha256
unfolding normalize_pin_input identity trim_space
pin-excludes_example =
    pin-excludes hasher input registry made check pinned refl refl refl check_passes

abbrev requests : List Request
requests = approve approval ∷ make_pin input ∷ approve revocation ∷ []

perform_all_new-IsSound_example : IsSound hasher (perform_all hasher requests new_registry)
perform_all_new-IsSound_example = perform_all_new-IsSound hasher requests
