-- ===== src/ContractApproval/Valid.antt =====
-- contracts/contractapproval/approval.go: the audit hashes and the validation of records and pins.
use xx_federation_contracts.Base.{String, Bool, ◌&&◌, ◌||◌, not, ◌==◌, any, is_empty, if◌then◌else◌}
use xx_federation_contracts.Base.Int.{is_nonpositive}
use xx_federation_contracts.Base.Hex.{hex}
use xx_federation_contracts.Base.Text.{trim_space}
use xx_federation_contracts.Base.Slices.{normalize_strings}
use xx_federation_contracts.Base.Exec.{Result, ok, err}
use xx_federation_contracts.Apperrors.{GoError}
use xx_federation_contracts.ContractApproval.Types.{
  ContractPin, ApprovalRecord, PartnerPin, ApprovalInput, Hasher, approval_err,
  state_pending_approval, state_approved, state_revoked,
}
use xx_federation_contracts.ContractApproval.Normal.{
  normalize_approval_record, normalize_partner_pin, contract_pins_from_manifest, state_or_pending,
}

-- Whether the loop over `record.Contracts` reports no incomplete pin.
unfoldable pub is_incomplete : ContractPin → Bool
is_incomplete pin =
    pin.contract_id == ""
    || pin.contract_version == ""
    || pin.payload_schema_hash_sha256 == ""
    || pin.action == ""
    || pin.service_catalog_id == ""

-- `none` for a state that passes the switch.
unfoldable pub state_fault : ApprovalRecord → Result GoError (Unit {0})
state_fault r =
    if r.state == state_pending_approval
    then ok tt
    else if r.state == state_approved
    then (if r.approved_by == "" || is_nonpositive r.approved_at_ms
        then err (approval_err "approved contract packs require approver evidence")
        else ok tt)
    else if r.state == state_revoked
    then ok tt
    else err (approval_err "contract approval state is invalid")

module _ (hasher : Hasher) where
  open hasher use {marshal_record, marshal_pin, sha256}

  -- `ApprovalAuditHash` and `PinAuditHash`, with `hashCanonical`.
  unfoldable pub approval_audit_hash : ApprovalRecord → String
  approval_audit_hash r = hex (
      sha256
        (marshal_record (record (normalize_approval_record r) { audit_binding_hash_sha256 = "" })))

  unfoldable pub pin_audit_hash : PartnerPin → String
  pin_audit_hash p =
      hex
        (sha256 (marshal_pin (record (normalize_partner_pin p) { audit_binding_hash_sha256 = "" })))

  -- `ValidateApprovalRecord` from the switch on, given what the switch reports.
  unfoldable pub validate_rest :
      ApprovalRecord → Result GoError (Unit {0}) → Result GoError (Unit {0})
  validate_rest r (err e) = err e
  validate_rest r (ok _) =
      if r.state == state_approved && is_empty r.allowed_partner_link_ids
      then err (approval_err "approved contract packs require explicit partner-link allowlists")
      else if any is_incomplete r.contracts
      then err (approval_err "contract approval pin is incomplete")
      else if not (r.audit_binding_hash_sha256 == "")
          && not (r.audit_binding_hash_sha256 == approval_audit_hash r)
      then err (approval_err "contract approval audit binding hash does not match")
      else ok tt

  -- `ValidateApprovalRecord` of a normalised record.
  unfoldable pub validate_normal_record : ApprovalRecord → Result GoError (Unit {0})
  unfolding validate_rest state_fault
  validate_normal_record r =
      if r.tenant_id == ""
        || r.catalog_version == ""
        || r.pack_version == ""
        || r.manifest_id == ""
        || r.manifest_hash_sha256 == ""
        || r.created_by == ""
        || is_nonpositive r.created_at_ms
        || is_empty r.contracts
      then err (approval_err "contract approval record is incomplete")
      else validate_rest r (state_fault r)

  -- `ValidateApprovalRecord`
  unfoldable pub validate_approval_record : ApprovalRecord → Result GoError (Unit {0})
  unfolding validate_normal_record
  validate_approval_record r = validate_normal_record (normalize_approval_record r)

  -- `ValidatePartnerPin` of a normalised pin.
  unfoldable pub validate_normal_pin : PartnerPin → Result GoError (Unit {0})
  validate_normal_pin p =
      if p.tenant_id == ""
        || p.partner_link_id == ""
        || p.catalog_version == ""
        || p.pack_version == ""
        || p.manifest_hash_sha256 == ""
        || p.pinned_by == ""
        || is_nonpositive p.pinned_at_ms
      then err (approval_err "contract pack pin is incomplete")
      else if not (p.audit_binding_hash_sha256 == "")
          && not (p.audit_binding_hash_sha256 == pin_audit_hash p)
      then err (approval_err "contract pack pin audit binding hash does not match")
      else ok tt

  -- `ValidatePartnerPin`
  unfoldable pub validate_partner_pin : PartnerPin → Result GoError (Unit {0})
  unfolding validate_normal_pin
  validate_partner_pin p = validate_normal_pin (normalize_partner_pin p)

  -- The record that `NewApprovalRecord` builds, before its audit hash.
  unfoldable pub draft_record : ApprovalInput → ApprovalRecord
  unfolding state_or_pending
  draft_record input = record {
    tenant_id = trim_space input.manifest.tenant_id;
    catalog_version = trim_space input.manifest.catalog_version;
    pack_version = trim_space input.pack_version;
    manifest_id = trim_space input.manifest.manifest_id;
    manifest_hash_sha256 = trim_space input.manifest.manifest_hash_sha256;
    state = state_or_pending (trim_space input.state);
    allowed_partner_link_ids = normalize_strings input.allowed_partner_link_ids;
    contracts =
        contract_pins_from_manifest input.manifest input.service_catalog_id_by_contract_id
          input.service_catalog_action_by_contract_id;
    approved_by = trim_space input.approved_by;
    approved_at_ms = input.approved_at_ms;
    created_by = trim_space input.created_by;
    created_at_ms = input.created_at_ms;
    audit_binding_hash_sha256 = "";
  }

  unfoldable pub validated :
      ApprovalRecord → Result GoError (Unit {0}) → Result GoError ApprovalRecord
  validated r (err e) = err e
  validated r (ok _) = ok r

  -- `NewApprovalRecord`
  unfoldable pub new_approval_record : ApprovalInput → Result GoError ApprovalRecord
  unfolding validated draft_record
  new_approval_record input =
      let r = record (draft_record input) {
        audit_binding_hash_sha256 = approval_audit_hash (draft_record input);
      } in
      validated r (validate_approval_record r)
