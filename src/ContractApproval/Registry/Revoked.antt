-- ===== src/ContractApproval/Registry/Revoked.antt =====
-- contracts/contractapproval/approval.go: how a stored approval changes what the check admits.
use xx_federation_contracts.Base.{String, ◌≡◌, sym, ap, ◌∙◌, ◌≢◌, List, some, arith, eq_iff}
use xx_federation_contracts.Base.Maps.{lookup, insert, lookup-insert, or_else}
use xx_federation_contracts.Base.Exec.{Result, ok, err}
use xx_federation_contracts.Apperrors.{GoError}
use xx_federation_contracts.Exchange.Types.{PolicyCheck}
use xx_federation_contracts.ContractApproval.Types.{ApprovalRecord, Hasher, state_approved}
use xx_federation_contracts.ContractApproval.Normal.{normalize_approval_record}
use xx_federation_contracts.ContractApproval.Registry.{
  Registry, identity, authorize_contract_approval, put_approval, store_record,
}
use xx_federation_contracts.ContractApproval.Registry.Authorized.{authorize_iff}

pub lookup_inserted :
    {V : Type 0} (k : String) (v : V) (m : List (String × V)) → lookup k (insert k v m) ≡ some v
lookup_inserted k v m = ground (arith, lookup-insert k k v m, eq_iff k k)

store_record_ok :
    (n : ApprovalRecord) (verdict : Result GoError (Unit {0})) (r : Registry)
    → (store_record n verdict r).0 ≡ ok tt
    → lookup n.manifest_hash_sha256 (store_record n verdict r).1.records ≡ some n
unfolding store_record
store_record_ok n (err e) r h = ground arith
store_record_ok n (ok u) r h = lookup_inserted n.manifest_hash_sha256 n r.records

module _ (hasher : Hasher) where
  -- Once an approval that is not in the state approved was stored, no check of its manifest's hash
  -- passes, whatever was approved or pinned before.
  pub put_approval-revokes :
      (approval : ApprovalRecord) (r : Registry) (input : PolicyCheck)
      → (put_approval hasher approval r).0 ≡ ok tt
      → (normalize_approval_record approval).state ≢ state_approved
      → (normalize_approval_record approval).manifest_hash_sha256 ≡ (identity input).manifest_hash
      → authorize_contract_approval ((put_approval hasher approval r).1) input ≢ ok tt
  unfolding put_approval
  put_approval-revokes approval r input stored revoked same passed =
      let n = normalize_approval_record approval in
      let (has, (found, at, granting)) =
        (authorize_iff ((put_approval hasher approval r).1) input).0 passed in
      revoked (
        ap (λ o. (or_else found o).state)
          (sym (store_record_ok n _ r stored)
            ∙ ap (λ k. lookup k ((put_approval hasher approval r).1).records) same
            ∙ at)
        ∙ granting.0)
