-- ===== src/ContractApproval/Registry/Pinned.antt =====
-- contracts/contractapproval/approval.go: how a pin changes what the check admits.
use xx_federation_contracts.Base.{
  String, ◌≡◌, refl, sym, ap, subst, ◌∙◌, ◌≢◌, Bool, true, false, ◌||◌, not, Option, none, some,
  ◌==◌, if◌then◌else◌, arith, eq_iff, eq_of_test,
}
use xx_federation_contracts.Base.Int.{is_nonpositive}
use xx_federation_contracts.Base.Maps.{lookup, insert, or_else}
use xx_federation_contracts.Base.Text.{trim_space}
use xx_federation_contracts.Base.Exec.{Result, ok, err}
use xx_federation_contracts.Apperrors.{GoError}
use xx_federation_contracts.Exchange.Types.{PolicyCheck, ContractRef}
use xx_federation_contracts.ContractApproval.Types.{
  ApprovalRecord, PartnerPin, PinInput, Hasher, empty_pin, state_approved,
}
use xx_federation_contracts.ContractApproval.Normal.{
  normalize_partner_pin, normalize_pin_input, contains_string, pin_key, contract_pinned,
}
use xx_federation_contracts.ContractApproval.Valid.{validate_partner_pin, validate_normal_pin}
use xx_federation_contracts.ContractApproval.Registry.{
  Registry, pin_at, Identity, identity, authorize_contract_approval, store_pin, draft_pin,
  pin_record, pin,
}
use xx_federation_contracts.ContractApproval.Registry.Revoked.{lookup_inserted}
use xx_federation_contracts.ContractApproval.Registry.Authorized.{
  IsGranting, IsApproved, authorize_iff,
}

-- The registry after a pin was stored.
abbrev with_pin : PartnerPin → Registry → Registry
with_pin p r = record r {
  pins = insert (pin_key p.tenant_id p.partner_link_id p.catalog_version) p r.pins;
}

store_pin_ok :
    (p q : PartnerPin) (verdict : Result GoError (Unit {0})) (r : Registry)
    → (store_pin p verdict r).0 ≡ ok q
    → (verdict ≡ ok tt) × ((store_pin p verdict r).1 ≡ with_pin p r)
unfolding store_pin
store_pin_ok p q (err e) r h = ground arith
store_pin_ok p q (ok u) r h = (refl, refl)

same_key : {a b c x y z : String} → a ≡ x → b ≡ y → c ≡ z → pin_key x y z ≡ pin_key a b c
same_key e f g = cc

blank_trimmed : trim_space "" ≡ ""
unfolding trim_space
blank_trimmed = refl

filled_of_trimmed : (s : String) → (trim_space s == "") ≡ false → s ≢ ""
filled_of_trimmed s h e = ground (arith, eq_iff (trim_space s) "", ap trim_space e ∙ blank_trimmed)

-- A step that succeeded passed its guard.
guard :
    {q : PartnerPin} (Q : Result GoError PartnerPin × Registry → Type 0) (b : Bool) (e : GoError)
    (r : Registry) (x : Result GoError PartnerPin × Registry)
    → (if b then (err e, r) else x).0 ≡ ok q
    → (b ≡ false → x.0 ≡ ok q → Q x)
    → Q (if b then (err e, r) else x)
guard Q true e r x h k = ground arith
guard Q false e r x h k = k refl h

module _ (hasher : Hasher) where
  -- What `Pin` checked and made, of a normalised input.
  abbrev HasPinned : ApprovalRecord → PinInput → Registry → Registry → Type 0
  HasPinned approval i r r' =
      (approval.state ≡ state_approved)
      × (approval.tenant_id ≡ i.tenant_id)
      × (approval.catalog_version ≡ i.catalog_version)
      × (approval.pack_version ≡ i.pack_version)
      × (contains_string approval.allowed_partner_link_ids i.partner_link_id ≡ true)
      × ((p : PartnerPin) × (validate_partner_pin hasher p ≡ ok tt)
          × (r' ≡ with_pin p r)
          × (p.tenant_id ≡ i.tenant_id)
          × (p.partner_link_id ≡ i.partner_link_id)
          × (p.catalog_version ≡ i.catalog_version)
          × (p.pack_version ≡ i.pack_version)
          × (p.manifest_hash_sha256 ≡ i.manifest_hash_sha256))

  pin_record_ok :
      (approval : ApprovalRecord) (i : PinInput) (r : Registry) (q : PartnerPin)
      → (pin_record hasher (some approval) i r).0 ≡ ok q
      → HasPinned approval i r ((pin_record hasher (some approval) i r).1)
  unfolding pin_record draft_pin
  pin_record_ok approval i r q h = guard Q (not (approval.state == state_approved)) _ r _ h λ b h.
      guard Q
        (not (approval.tenant_id == i.tenant_id)
          || not (approval.catalog_version == i.catalog_version)
          || not (approval.pack_version == i.pack_version))
        _ r _ h
        λ c h.
          guard Q (not (contains_string approval.allowed_partner_link_ids i.partner_link_id)) _ r _
            h
            λ d h. guard Q (i.pinned_by == "" || is_nonpositive i.pinned_at_ms) _ r _ h λ e h.
              let (valid, effect) = store_pin_ok _ q _ r h in
              (
                eq_of_test approval.state state_approved (ground arith),
                eq_of_test approval.tenant_id i.tenant_id (ground arith),
                eq_of_test approval.catalog_version i.catalog_version (ground arith),
                eq_of_test approval.pack_version i.pack_version (ground arith),
                ground arith,
                (_, valid, effect, refl, refl, refl, refl, refl),
              )
    where
      Q : Result GoError PartnerPin × Registry → Type 0
      Q out = HasPinned approval i r out.1

  entry_ok :
      (entry : Option ApprovalRecord) (i : PinInput) (r : Registry) (q : PartnerPin)
      → (pin_record hasher entry i r).0 ≡ ok q
      → (approval : ApprovalRecord) × (entry ≡ some approval)
        × HasPinned approval i r ((pin_record hasher entry i r).1)
  unfolding pin_record
  entry_ok none i r q h = ground arith
  entry_ok (some approval) i r q h = (approval, refl, pin_record_ok approval i r q h)

  -- The identities of a check that a pin is for.
  abbrev pub pinned_identity : PinInput → Identity
  pinned_identity i = record {
    tenant_id = i.tenant_id;
    partner_link_id = i.partner_link_id;
    catalog_version = i.catalog_version;
    manifest_hash = i.manifest_hash_sha256;
  }

  valid_fields :
      (p : PartnerPin)
      → validate_partner_pin hasher p ≡ ok tt
      → (p.tenant_id ≢ "")
        × (p.partner_link_id ≢ "")
        × (p.catalog_version ≢ "")
        × (p.manifest_hash_sha256 ≢ "")
  unfolding validate_partner_pin validate_normal_pin normalize_partner_pin
  valid_fields p h = (
    filled_of_trimmed p.tenant_id (ground arith),
    filled_of_trimmed p.partner_link_id (ground arith),
    filled_of_trimmed p.catalog_version (ground arith),
    filled_of_trimmed p.manifest_hash_sha256 (ground arith),
  )

  pin_at_pinned :
      (p : PartnerPin) (i : PinInput) (r : Registry)
      → p.tenant_id ≡ i.tenant_id
      → p.partner_link_id ≡ i.partner_link_id
      → p.catalog_version ≡ i.catalog_version
      → pin_at (pin_key i.tenant_id i.partner_link_id i.catalog_version) (with_pin p r) ≡ p
  pin_at_pinned p i r a b c =
      ap (λ k. pin_at k (with_pin p r)) (same_key a b c)
      ∙ ap (or_else empty_pin)
          (lookup_inserted (pin_key p.tenant_id p.partner_link_id p.catalog_version) p r.pins)

  pinned-IsApproved :
      (approval : ApprovalRecord) (i : PinInput) (r r' : Registry) (ref : ContractRef)
      (action : String)
      → HasPinned approval i r r'
      → lookup i.manifest_hash_sha256 r.records ≡ some approval
      → contract_pinned approval.contracts ref action ≡ true
      → IsApproved r' (pinned_identity i) ref action
  pinned-IsApproved approval i r r' ref action
        (state, tenant, catalog, pack, link, (p, valid, effect, pt, pl, pc, pp, ph)) known listed =
      subst (λ x. IsApproved x (pinned_identity i) ref action) (sym effect)
        (
          (
            (λ e. (valid_fields p valid).0 (pt ∙ e)),
            (λ e. (valid_fields p valid).1 (pl ∙ e)),
            (λ e. (valid_fields p valid).2 (pc ∙ e)),
            (λ e. (valid_fields p valid).3 (ph ∙ e)),
          ),
          (
            approval,
            known,
            subst (λ x. IsGranting approval x (pinned_identity i) ref action)
                (sym (pin_at_pinned p i r pt pl pc))
                (state, tenant, catalog, link, ph, pp ∙ sym pack, pl, pc, listed),
          ),
        )

  -- Once `Pin` has succeeded, the approval check passes for every request whose identities are those
  -- of the pin and whose contract and action the approved record lists.
  pub pin-authorize :
      (input : PinInput) (r : Registry) (q : PartnerPin) (check : PolicyCheck)
      (approval : ApprovalRecord)
      → (pin hasher input r).0 ≡ ok q
      → identity check ≡ pinned_identity (normalize_pin_input input)
      → lookup (normalize_pin_input input).manifest_hash_sha256 r.records ≡ some approval
      → contract_pinned approval.contracts check.envelope.contract check.envelope.action ≡ true
      → authorize_contract_approval ((pin hasher input r).1) check ≡ ok tt
  unfolding pin
  pin-authorize input r q check approval pinned same known listed =
      let i = normalize_pin_input input in
      let (found, at, made) = entry_ok (lookup i.manifest_hash_sha256 r.records) i r q pinned in
      (authorize_iff ((pin hasher input r).1) check).1 (
        subst
          (λ x. IsApproved ((pin hasher input r).1) x check.envelope.contract check.envelope.action)
          (sym same)
          (pinned-IsApproved found i r _ check.envelope.contract check.envelope.action made at (
            subst
              (λ o.
                contract_pinned (or_else found o).contracts check.envelope.contract
                  check.envelope.action
                ≡ true)
              (sym known ∙ at) listed)))

  pinned_hash :
      (approval : ApprovalRecord) (i : PinInput) (r r' : Registry)
      → HasPinned approval i r r'
      → (pin_at (pin_key i.tenant_id i.partner_link_id i.catalog_version) r').manifest_hash_sha256
        ≡ i.manifest_hash_sha256
  pinned_hash approval i r r'
        (state, tenant, catalog, pack, link, (p, valid, effect, pt, pl, pc, pp, ph)) =
      ap
        (λ x.
          (pin_at (pin_key i.tenant_id i.partner_link_id i.catalog_version) x).manifest_hash_sha256)
        effect
      ∙ ap (λ x. x.manifest_hash_sha256) (pin_at_pinned p i r pt pl pc)
      ∙ ph

  -- Once `Pin` has succeeded, every request that passes the approval check for the pin's tenant,
  -- partner link and catalogue is under the manifest hash of the pin: an earlier pin's is refused.
  pub pin-excludes :
      (input : PinInput) (r : Registry) (q : PartnerPin) (check : PolicyCheck)
      → (pin hasher input r).0 ≡ ok q
      → (identity check).tenant_id ≡ (normalize_pin_input input).tenant_id
      → (identity check).partner_link_id ≡ (normalize_pin_input input).partner_link_id
      → (identity check).catalog_version ≡ (normalize_pin_input input).catalog_version
      → authorize_contract_approval ((pin hasher input r).1) check ≡ ok tt
      → (identity check).manifest_hash ≡ (normalize_pin_input input).manifest_hash_sha256
  unfolding pin
  pin-excludes input r q check pinned tenant link catalog passed =
      let i = normalize_pin_input input in
      let (found, at, made) = entry_ok (lookup i.manifest_hash_sha256 r.records) i r q pinned in
      let (has, (approval, entry, granting)) =
        (authorize_iff ((pin hasher input r).1) check).0 passed in
      sym granting.4
      ∙ ap (λ k. (pin_at k ((pin hasher input r).1)).manifest_hash_sha256)
          (sym (same_key tenant link catalog))
      ∙ pinned_hash found i r _ made
