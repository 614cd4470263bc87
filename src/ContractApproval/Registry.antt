-- ===== src/ContractApproval/Registry.antt =====
-- contracts/contractapproval/approval.go: the registry of approvals and pins. A nil registry is not
-- modelled; its lock makes each operation one step.
pub mod Authorized
pub mod Stored
pub mod Revoked
pub mod Pinned
use xx_federation_contracts.Base.{
  String, Bool, true, false, ◌&&◌, ◌||◌, not, List, [], Option, none, some, ◌==◌, if◌then◌else◌,
}
use xx_federation_contracts.Base.Int.{is_nonpositive}
use xx_federation_contracts.Base.Maps.{Map, lookup, insert, or_else}
use xx_federation_contracts.Base.Text.{trim_space}
use xx_federation_contracts.Base.Exec.{Result, ok, err}
use xx_federation_contracts.Apperrors.{GoError}
use xx_federation_contracts.Exchange.Types.{PolicyCheck, ContractRef}
use xx_federation_contracts.ContractApproval.Types.{
  ApprovalRecord, PartnerPin, PinInput, Hasher, approval_err, empty_pin, state_approved,
}
use xx_federation_contracts.ContractApproval.Normal.{
  normalize_approval_record, normalize_partner_pin, normalize_pin_input, contains_string, pin_key,
  contract_pinned,
}
use xx_federation_contracts.ContractApproval.Valid.{
  validate_approval_record, validate_partner_pin, pin_audit_hash,
}

pub record Registry : Type 0 where
  pub records : Map ApprovalRecord
  pub pins : Map PartnerPin

-- `NewRegistry`
abbrev pub new_registry : Registry
new_registry = record { records = []; pins = [] }

-- `r.pins[k]`, of which a missing one is the zero pin.
abbrev pub pin_at : String → Registry → PartnerPin
pin_at k r = or_else empty_pin (lookup k r.pins)

-- The pin that `Pin` builds, before its audit hash.
unfoldable pub draft_pin : PinInput → PartnerPin → PartnerPin
draft_pin input previous = record {
  tenant_id = input.tenant_id;
  partner_link_id = input.partner_link_id;
  catalog_version = input.catalog_version;
  pack_version = input.pack_version;
  manifest_hash_sha256 = input.manifest_hash_sha256;
  previous_pack_version = previous.pack_version;
  previous_manifest_hash_sha256 = previous.manifest_hash_sha256;
  pinned_by = input.pinned_by;
  pinned_at_ms = input.pinned_at_ms;
  reason = input.reason;
  audit_binding_hash_sha256 = "";
}

-- `PutApproval` from the validation on.
unfoldable pub store_record :
    ApprovalRecord → Result GoError (Unit {0}) → Registry → Result GoError (Unit {0}) × Registry
store_record approval (err e) r = (err e, r)
store_record approval (ok _) r =
    (ok tt, record r { records = insert approval.manifest_hash_sha256 approval r.records })

-- `PutPin` from the validation on.
unfoldable pub store_pin :
    PartnerPin → Result GoError (Unit {0}) → Registry → Result GoError PartnerPin × Registry
store_pin pin (err e) r = (err e, r)
store_pin pin (ok _) r = (
  ok pin,
  record r {
    pins = insert (pin_key pin.tenant_id pin.partner_link_id pin.catalog_version) pin r.pins;
  },
)

-- The identities of `AuthorizeContractApproval`, trimmed.
pub record Identity : Type 0 where
  pub tenant_id : String
  pub partner_link_id : String
  pub catalog_version : String
  pub manifest_hash : String

unfoldable pub identity : PolicyCheck → Identity
identity input = record {
  tenant_id = trim_space input.session.local_tenant_id;
  partner_link_id = trim_space input.envelope.partner_link_id;
  catalog_version = trim_space input.manifest.catalog_version;
  manifest_hash = trim_space input.manifest.manifest_hash_sha256;
}

-- `AuthorizeContractApproval` from the look-ups on.
unfoldable pub authorize_record :
    Option ApprovalRecord → PartnerPin → Identity → ContractRef → String → Result GoError (Unit {0})
authorize_record none pin i ref action = err (approval_err "contract pack version is not approved")
authorize_record (some r) pin i ref action =
    if not (r.state == state_approved)
    then err (approval_err "contract pack version is not approved")
    else if not (r.tenant_id == i.tenant_id) || not (r.catalog_version == i.catalog_version)
    then err (approval_err "contract pack approval does not match the exchange tenant or catalog")
    else if not (contains_string r.allowed_partner_link_ids i.partner_link_id)
    then err (approval_err "partner link is not approved for this contract pack")
    else if not (pin.manifest_hash_sha256 == i.manifest_hash)
        || not (pin.pack_version == r.pack_version)
        || not (pin.partner_link_id == i.partner_link_id)
        || not (pin.catalog_version == i.catalog_version)
    then err (approval_err "contract pack version is not pinned for this partner link")
    else if not (contract_pinned r.contracts ref action)
    then err (approval_err "contract is not pinned in the approved pack version")
    else ok tt

-- `AuthorizeContractApproval` of given identities.
unfoldable pub authorize_identity :
    Registry → Identity → ContractRef → String → Result GoError (Unit {0})
unfolding authorize_record
authorize_identity r i ref action =
    if i.tenant_id == ""
      || i.partner_link_id == ""
      || i.catalog_version == ""
      || i.manifest_hash == ""
    then err (approval_err "contract approval check is missing required identity")
    else authorize_record (lookup i.manifest_hash r.records)
        (pin_at (pin_key i.tenant_id i.partner_link_id i.catalog_version) r) i ref action

-- `AuthorizeContractApproval`
unfoldable pub authorize_contract_approval : Registry → PolicyCheck → Result GoError (Unit {0})
unfolding authorize_identity identity
authorize_contract_approval r input =
    authorize_identity r (identity input) input.envelope.contract input.envelope.action

module _ (hasher : Hasher) where
  -- `PutApproval`
  unfoldable pub put_approval : ApprovalRecord → Registry → Result GoError (Unit {0}) × Registry
  unfolding store_record
  put_approval approval r =
      let n = normalize_approval_record approval in
      store_record n (validate_approval_record hasher n) r

  -- `PutPin`; it returns the pin, where the source returns only the error.
  unfoldable pub put_pin : PartnerPin → Registry → Result GoError PartnerPin × Registry
  unfolding store_pin
  put_pin pin r = let n = normalize_partner_pin pin in store_pin n (validate_partner_pin hasher n) r

  -- `Pin` from the look-up of the record on, of a normalised input.
  unfoldable pub pin_record :
      Option ApprovalRecord → PinInput → Registry → Result GoError PartnerPin × Registry
  unfolding store_pin draft_pin
  pin_record none input r = (err (approval_err "contract pack version is not approved"), r)
  pin_record (some approval) input r =
      let key = pin_key input.tenant_id input.partner_link_id input.catalog_version in
      let draft = draft_pin input (pin_at key r) in
      let pin = record draft { audit_binding_hash_sha256 = pin_audit_hash hasher draft } in
      if not (approval.state == state_approved)
      then (err (approval_err "contract pack version is not approved"), r)
      else if not (approval.tenant_id == input.tenant_id)
          || not (approval.catalog_version == input.catalog_version)
          || not (approval.pack_version == input.pack_version)
      then (err (approval_err "contract pack pin does not match the approved pack version"), r)
      else if not (contains_string approval.allowed_partner_link_ids input.partner_link_id)
      then (err (approval_err "partner link is not approved for this contract pack"), r)
      else if input.pinned_by == "" || is_nonpositive input.pinned_at_ms
      then (err (approval_err "pin approver and timestamp are required"), r)
      else store_pin pin (validate_partner_pin hasher pin) r

  -- `Pin`
  unfoldable pub pin : PinInput → Registry → Result GoError PartnerPin × Registry
  unfolding pin_record
  pin input r =
      let i = normalize_pin_input input in pin_record (lookup i.manifest_hash_sha256 r.records) i r
