-- ===== src/ContractApproval/Registry/Stored.antt =====
-- contracts/contractapproval/approval.go: what the registry holds after any calls.
use xx_federation_contracts.Base.{
  ◌≡◌, refl, not, ◌||◌, List, [], ◌∷◌, Option, none, some, ◌==◌, if-holds,
}
use xx_federation_contracts.Base.Int.{is_nonpositive}
use xx_federation_contracts.Base.Maps.{Entries, Entries-insert, lookup}
use xx_federation_contracts.Base.Exec.{Result, ok, err}
use xx_federation_contracts.Apperrors.{GoError}
use xx_federation_contracts.ContractApproval.Types.{
  ApprovalRecord, PartnerPin, PinInput, Hasher, state_approved,
}
use xx_federation_contracts.ContractApproval.Normal.{
  normalize_approval_record, normalize_partner_pin, normalize_pin_input, contains_string, pin_key,
}
use xx_federation_contracts.ContractApproval.Valid.{validate_approval_record, validate_partner_pin}
use xx_federation_contracts.ContractApproval.Registry.{
  Registry, new_registry, store_record, store_pin, put_approval, put_pin, pin_record, pin,
}

-- A call that changes the registry.
pub data Request : Type 0 where
  approve : ApprovalRecord → Request
  set_pin : PartnerPin → Request
  make_pin : PinInput → Request

module _ (hasher : Hasher) where
  -- Every record is valid and stands under its manifest's hash, and every pin is valid and stands
  -- under its key.
  abbrev pub IsSound : Registry → Type 0
  IsSound r =
      Entries
        (λ key approval.
          (key ≡ approval.manifest_hash_sha256)
          × (validate_approval_record hasher approval ≡ ok tt))
        r.records
      × Entries
          (λ key p.
            (key ≡ pin_key p.tenant_id p.partner_link_id p.catalog_version)
            × (validate_partner_pin hasher p ≡ ok tt))
          r.pins

  abbrev pub perform : Request → Registry → Registry
  perform (approve approval) r = (put_approval hasher approval r).1
  perform (set_pin p) r = (put_pin hasher p r).1
  perform (make_pin input) r = (pin hasher input r).1

  -- The registry after calls, one after the other, whether they succeed or fail.
  abbrev pub perform_all : List Request → Registry → Registry
  perform_all [] r = r
  perform_all (request ∷ requests) r = perform_all requests (perform request r)

  store_record-IsSound :
      (n : ApprovalRecord) (verdict : Result GoError (Unit {0})) (r : Registry)
      → validate_approval_record hasher n ≡ verdict
      → IsSound r
      → IsSound ((store_record n verdict r).1)
  unfolding store_record
  store_record-IsSound n (err e) r valid sound = sound
  store_record-IsSound n (ok u) r valid (records, pins) =
      (Entries-insert _ n.manifest_hash_sha256 n r.records (refl, valid) records, pins)

  store_pin-IsSound :
      (p : PartnerPin) (verdict : Result GoError (Unit {0})) (r : Registry)
      → validate_partner_pin hasher p ≡ verdict
      → IsSound r
      → IsSound ((store_pin p verdict r).1)
  unfolding store_pin
  store_pin-IsSound p (err e) r valid sound = sound
  store_pin-IsSound p (ok u) r valid (records, pins) =
      (records, Entries-insert _ _ p r.pins (refl, valid) pins)

  pin_record-IsSound :
      (entry : Option ApprovalRecord) (i : PinInput) (r : Registry)
      → IsSound r
      → IsSound ((pin_record hasher entry i r).1)
  unfolding pin_record
  pin_record-IsSound none i r sound = sound
  pin_record-IsSound (some approval) i r sound =
      let P : Result GoError PartnerPin × Registry → Type 0 = λ out. IsSound out.1 in
      if-holds P (not (approval.state == state_approved)) sound (
        if-holds P
          (not (approval.tenant_id == i.tenant_id)
            || not (approval.catalog_version == i.catalog_version)
            || not (approval.pack_version == i.pack_version))
          sound
          (if-holds P (not (contains_string approval.allowed_partner_link_ids i.partner_link_id))
            sound
            (if-holds P (i.pinned_by == "" || is_nonpositive i.pinned_at_ms) sound
              (store_pin-IsSound _ _ r refl sound))))

  perform-IsSound : (request : Request) (r : Registry) → IsSound r → IsSound (perform request r)
  unfolding put_approval put_pin pin
  perform-IsSound (approve approval) r sound =
      store_record-IsSound (normalize_approval_record approval) _ r refl sound
  perform-IsSound (set_pin p) r sound = store_pin-IsSound (normalize_partner_pin p) _ r refl sound
  perform-IsSound (make_pin input) r sound =
      let i = normalize_pin_input input in
      pin_record-IsSound (lookup i.manifest_hash_sha256 r.records) i r sound

  perform_all-IsSound :
      (requests : List Request) (r : Registry) → IsSound r → IsSound (perform_all requests r)
  perform_all-IsSound [] r sound = sound
  perform_all-IsSound (request ∷ requests) r sound =
      perform_all-IsSound requests (perform request r) (perform-IsSound request r sound)

  -- Whatever approvals and pins are put in a new registry, and whatever pins it makes: each of its
  -- records is valid and stands under its manifest's hash, and each of its pins is valid and stands
  -- under the key of its tenant, partner link and catalogue.
  pub perform_all_new-IsSound :
      (requests : List Request) → IsSound (perform_all requests new_registry)
  perform_all_new-IsSound requests = perform_all-IsSound requests new_registry (tt, tt)
