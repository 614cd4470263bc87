-- ===== src/Exchange/Handler/Serve/Invariant.antt =====
-- What holds of the record of calls between two requests, and of every answer.
use xx_federation_contracts.Base.{String, ◌≡◌, ◌⊎◌, true, List, [], ◌∷◌, Option, none, some}
use xx_federation_contracts.Base.Exec.{Result, ok, err}
use xx_federation_contracts.Apperrors.{GoError}
use xx_federation_contracts.Exchange.Names.{decision_allow, decision_deny}
use xx_federation_contracts.Exchange.Types.{
  Envelope, ActionContract, Manifest, empty_manifest, AcceptedEnvelope, AuditEvent, Response,
  ErrorInfo, empty_result,
}
use xx_federation_contracts.Exchange.Payload.{Platform, validate_dispatch_result}
use xx_federation_contracts.Exchange.Handler.{
  Handler, State, Call, claimed, audited, dispatched, discovered, audit_event,
}
use xx_federation_contracts.Exchange.Handler.Preflight.{allow}
use xx_federation_contracts.Exchange.Handler.Preflight.Gates.{IsContracted}
use xx_federation_contracts.Exchange.Handler.Preflight.Admission.{IsAdmitted}
use xx_federation_contracts.Exchange.Handler.Serve.{
  is_free_catalog_view, is_free_data_channel, catalog_view_action, data_channel_action,
}

module _ {W : Type 0} (h : Handler W) where
  -- The two actions that carry an empty contract and need no manifest.
  abbrev pub IsFree : Envelope → Manifest → ActionContract → Type 0
  IsFree env manifest action =
      (manifest ≡ empty_manifest)
      × (((is_free_catalog_view env ≡ true) × (action ≡ catalog_view_action))
          ⊎ ((is_free_data_channel env ≡ true) × (action ≡ data_channel_action)))

  -- What a facade may rely on for an envelope that it is given.
  pub record IsAuthorized (accepted : AcceptedEnvelope) : Type 0 where
    pub admitted : IsAdmitted h accepted.session accepted.envelope
    pub routed :
        IsContracted h accepted.session accepted.envelope accepted.manifest accepted.action
        ⊎ IsFree accepted.envelope accepted.manifest accepted.action
    pub decided :
        accepted.decision
        ≡ allow accepted.session accepted.envelope accepted.manifest accepted.action

  -- The call before is the audit of the decision.
  abbrev pub FollowsAudit : AcceptedEnvelope → List Call → Type 0
  FollowsAudit accepted (audited e ∷ calls) = e ≡ audit_event accepted.decision
  FollowsAudit accepted _ = ⊥

  -- Every dispatch in the record is authorized, and directly follows the audit of its decision.
  abbrev pub IsLawful : List Call → Type 0
  IsLawful [] = Unit
  IsLawful (dispatched accepted ∷ calls) =
      IsAuthorized accepted × FollowsAudit accepted calls × IsLawful calls
  IsLawful (claimed c ∷ calls) = IsLawful calls
  IsLawful (audited e ∷ calls) = IsLawful calls
  IsLawful (discovered session ∷ calls) = IsLawful calls

-- The last audit of a record.
abbrev pub last_audit : List Call → Option AuditEvent
last_audit [] = none
last_audit (audited e ∷ calls) = some e
last_audit (claimed c ∷ calls) = last_audit calls
last_audit (dispatched accepted ∷ calls) = last_audit calls
last_audit (discovered session ∷ calls) = last_audit calls

-- The code of an error is the decision's.
abbrev pub HasCode : String → Option ErrorInfo → Type 0
HasCode code none = Unit
HasCode code (some info) = info.code ≡ code

-- An allowed answer carries a checked result and no error; a denied one carries no result.
abbrev pub IsCoherent : Platform → Response → Type 0
IsCoherent platform answer =
    ((answer.decision.decision ≡ decision_allow)
      × (answer.error ≡ none)
      × (validate_dispatch_result platform answer.result ≡ true))
    ⊎ ((answer.decision.decision ≡ decision_deny)
        × (answer.result ≡ empty_result)
        × HasCode answer.decision.denial_code answer.error)

-- An answer is coherent, and its decision is the last one audited.
abbrev pub IsAnswered : Platform → Result GoError Response → List Call → Type 0
IsAnswered platform (err e) calls = Unit
IsAnswered platform (ok answer) calls =
    IsCoherent platform answer × (last_audit calls ≡ some (audit_event answer.decision))

module _ {W : Type 0} (h : Handler W) where
  -- What a request leaves behind.
  abbrev pub IsHandled : Result GoError Response × State W → Type 0
  IsHandled (r, s) = IsLawful h s.calls × IsAnswered h.platform r s.calls
