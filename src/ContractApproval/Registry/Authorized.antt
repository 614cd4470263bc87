-- ===== src/ContractApproval/Registry/Authorized.antt =====
-- contracts/contractapproval/approval.go: what `AuthorizeContractApproval` admits.
use xx_federation_contracts.Base.{
  String, ◌≡◌, refl, ◌≢◌, true, Option, none, some, arith, eq_iff, eq_of_test, ◌↔◌, sym, subst,
}
use xx_federation_contracts.Base.Maps.{lookup, or_else}
use xx_federation_contracts.Base.Exec.{ok}
use xx_federation_contracts.Exchange.Types.{PolicyCheck, ContractRef}
use xx_federation_contracts.ContractApproval.Types.{ApprovalRecord, PartnerPin, state_approved}
use xx_federation_contracts.ContractApproval.Normal.{contains_string, pin_key, contract_pinned}
use xx_federation_contracts.ContractApproval.Registry.{
  Registry, pin_at, Identity, identity, authorize_record, authorize_identity,
  authorize_contract_approval,
}

-- A record and a pin under which the approval check passes for an identity and a contract.
abbrev pub IsGranting : ApprovalRecord → PartnerPin → Identity → ContractRef → String → Type 0
IsGranting r pin i ref action =
    (r.state ≡ state_approved)
    × (r.tenant_id ≡ i.tenant_id)
    × (r.catalog_version ≡ i.catalog_version)
    × (contains_string r.allowed_partner_link_ids i.partner_link_id ≡ true)
    × (pin.manifest_hash_sha256 ≡ i.manifest_hash)
    × (pin.pack_version ≡ r.pack_version)
    × (pin.partner_link_id ≡ i.partner_link_id)
    × (pin.catalog_version ≡ i.catalog_version)
    × (contract_pinned r.contracts ref action ≡ true)

abbrev pub HasIdentity : Identity → Type 0
HasIdentity i =
    (i.tenant_id ≢ "")
    × (i.partner_link_id ≢ "")
    × (i.catalog_version ≢ "")
    × (i.manifest_hash ≢ "")

-- The record under the identity's manifest hash and the pin of its partner link grant.
abbrev pub IsApproved : Registry → Identity → ContractRef → String → Type 0
IsApproved r i ref action =
    HasIdentity i
    × ((approval : ApprovalRecord) × (lookup i.manifest_hash r.records ≡ some approval)
        × IsGranting approval (pin_at (pin_key i.tenant_id i.partner_link_id i.catalog_version) r) i
            ref action)

authorize_record-IsGranting :
    (r : ApprovalRecord) (pin : PartnerPin) (i : Identity) (ref : ContractRef) (action : String)
    → authorize_record (some r) pin i ref action ≡ ok tt
    → IsGranting r pin i ref action
unfolding authorize_record
authorize_record-IsGranting r pin i ref action h = (
  eq_of_test r.state state_approved (ground arith),
  eq_of_test r.tenant_id i.tenant_id (ground arith),
  eq_of_test r.catalog_version i.catalog_version (ground arith),
  ground arith,
  eq_of_test pin.manifest_hash_sha256 i.manifest_hash (ground arith),
  eq_of_test pin.pack_version r.pack_version (ground arith),
  eq_of_test pin.partner_link_id i.partner_link_id (ground arith),
  eq_of_test pin.catalog_version i.catalog_version (ground arith),
  ground arith,
)

granting_authorize :
    (r : ApprovalRecord) (pin : PartnerPin) (i : Identity) (ref : ContractRef) (action : String)
    → IsGranting r pin i ref action
    → authorize_record (some r) pin i ref action ≡ ok tt
unfolding authorize_record
granting_authorize r pin i ref action (a, b, c, d, e, f, g, h, k) = ground (
  arith,
  eq_iff r.state state_approved,
  eq_iff r.tenant_id i.tenant_id,
  eq_iff r.catalog_version i.catalog_version,
  eq_iff pin.manifest_hash_sha256 i.manifest_hash,
  eq_iff pin.pack_version r.pack_version,
  eq_iff pin.partner_link_id i.partner_link_id,
  eq_iff pin.catalog_version i.catalog_version,
)

authorized_at :
    (entry : Option ApprovalRecord) (pin : PartnerPin) (i : Identity) (ref : ContractRef)
    (action : String)
    → (authorize_record entry pin i ref action ≡ ok tt)
      ↔ ((r : ApprovalRecord) × (entry ≡ some r) × IsGranting r pin i ref action)
unfolding authorize_record
authorized_at none pin i ref action = (λ h. ground arith, λ (r, e, h). ground arith)
authorized_at (some r) pin i ref action = (
  λ h. (r, refl, authorize_record-IsGranting r pin i ref action h),
  λ (s, e, h).
      granting_authorize r pin i ref action
        (subst (λ x. IsGranting (or_else r x) pin i ref action) (sym e) h),
)

identity_iff :
    (r : Registry) (i : Identity) (ref : ContractRef) (action : String)
    → (authorize_identity r i ref action ≡ ok tt) ↔ IsApproved r i ref action
unfolding authorize_identity
identity_iff r i ref action =
    let at =
      authorized_at (lookup i.manifest_hash r.records)
        (pin_at (pin_key i.tenant_id i.partner_link_id i.catalog_version) r) i ref action in
    (
      λ h. (
        (
          (λ e. ground (arith, eq_iff i.tenant_id "")),
          (λ e. ground (arith, eq_iff i.partner_link_id "")),
          (λ e. ground (arith, eq_iff i.catalog_version "")),
          (λ e. ground (arith, eq_iff i.manifest_hash "")),
        ),
        at.0 (ground arith),
      ),
      λ (has, found). ground (
        arith,
        at.1 found,
        has.0,
        has.1,
        has.2,
        has.3,
        eq_iff i.tenant_id "",
        eq_iff i.partner_link_id "",
        eq_iff i.catalog_version "",
        eq_iff i.manifest_hash "",
      ),
    )

-- The approval check passes exactly when all four identities are given, the record under the
-- manifest's hash is approved, for the session's tenant, the manifest's catalogue and the partner
-- link, the pin of tenant, partner link and catalogue is on this hash and pack version, and the
-- record lists the contract with its version, payload schema and action.
pub authorize_iff :
    (r : Registry) (input : PolicyCheck)
    → (authorize_contract_approval r input ≡ ok tt)
      ↔ IsApproved r (identity input) input.envelope.contract input.envelope.action
unfolding authorize_contract_approval
authorize_iff r input =
    identity_iff r (identity input) input.envelope.contract input.envelope.action
