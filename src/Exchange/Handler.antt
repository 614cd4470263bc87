-- ===== src/Exchange/Handler.antt =====
-- contracts/exchange/exchange.go: the collaborators of `Handler` and its calls of them. The
-- collaborators are parameters: each is a step on a world of its own, and a list records the claims,
-- audits, dispatches and discoveries that the handler makes, the last one first.
pub mod Preflight
pub mod Serve
pub mod Discovery
use xx_federation_contracts.Base.{
  String, Bool, true, false, List, ◌∷◌, Option, none, some, ◌==◌, if◌then◌else◌,
}
use xx_federation_contracts.Base.Int.{ℤ}
use xx_federation_contracts.Base.Exec.{Result, ok, err, Exec}
use xx_federation_contracts.Base.Text.{trim_space}
use xx_federation_contracts.Apperrors.{
  GoError, plain, app, app_wrap, wrapped, denial, new, not_found_or_unauthorized,
  storage_unavailable,
}
use xx_federation_contracts.Exchange.Names.{
  facade_get_service_catalog_view, facade_open_federation_transaction,
  facade_create_federation_room, facade_submit_federation_message, facade_request_builder_work,
  facade_submit_federation_result, facade_deliver_builder_work_result,
  facade_submit_commercial_event, facade_establish_data_channel, error_contract_unknown,
  error_payload_invalid, error_policy_denied, error_gateway_unavailable,
}
use xx_federation_contracts.Exchange.Payload.{Platform}
use xx_federation_contracts.Exchange.Types.{
  ContractRef, Envelope, AuthenticatedSession, ActionContract, Manifest, ReplayClaim, PolicyCheck,
  PayloadValidationInput, AuditEvent, PreflightDecision, AcceptedEnvelope, DispatchResult,
  SignedManifestDocument,
}

abbrev pub Ask : Type 0 → Type 0 → Type 0
Ask W Q = Q → W → Option GoError × W

abbrev pub Fetch : Type 0 → Type 0 → Type 0 → Type 0
Fetch W Q A = Q → W → Result GoError A × W

-- `Facade`; the last field is the optional `DataChannelFacade`.
pub record Facade (W : Type 0) : Type 0 where
  pub get_service_catalog_view : Fetch W AcceptedEnvelope DispatchResult
  pub open_federation_transaction : Fetch W AcceptedEnvelope DispatchResult
  pub create_federation_room : Fetch W AcceptedEnvelope DispatchResult
  pub submit_federation_message : Fetch W AcceptedEnvelope DispatchResult
  pub request_builder_work : Fetch W AcceptedEnvelope DispatchResult
  pub submit_federation_result : Fetch W AcceptedEnvelope DispatchResult
  pub deliver_builder_work_result : Fetch W AcceptedEnvelope DispatchResult
  pub submit_commercial_event : Fetch W AcceptedEnvelope DispatchResult
  pub establish_data_channel : Option (Fetch W AcceptedEnvelope DispatchResult)

-- `Handler`; `none` is a nil interface, and `now_ms` is `NowMS` or the system's clock.
pub record Handler (W : Type 0) : Type 0 where
  pub manifests : Option (Fetch W ContractRef Manifest)
  pub replay : Option (Ask W ReplayClaim)
  pub policy : Option (Ask W PolicyCheck)
  pub payloads : Option (Ask W PayloadValidationInput)
  pub approvals : Option (Ask W PolicyCheck)
  pub facade : Option (Facade W)
  pub discovery : Option (Fetch W AuthenticatedSession (List SignedManifestDocument))
  pub audit : Option (Ask W AuditEvent)
  pub now_ms : W → ℤ × W
  pub clock_skew_ms : ℤ
  pub platform : Platform

pub data Call : Type 0 where
  claimed : ReplayClaim → Call
  audited : AuditEvent → Call
  dispatched : AcceptedEnvelope → Call
  discovered : AuthenticatedSession → Call

pub record State (W : Type 0) : Type 0 where
  pub world : W
  pub calls : List Call

-- The event that `h.audit` records for a decision.
abbrev pub audit_event : PreflightDecision → AuditEvent
audit_event d = record {
  schema_version = d.schema_version;
  local_tenant_id = d.local_tenant_id;
  local_gateway_id = d.local_gateway_id;
  envelope_id = d.envelope_id;
  correlation_id = d.correlation_id;
  decision = d.decision;
  denial_code = d.denial_code;
  authenticated_remote_gateway_id = d.authenticated_remote_gateway_id;
  remote_tenant_id = d.remote_tenant_id;
  partner_link_id = d.partner_link_id;
  contract_id = d.contract_id;
  manifest_hash_sha256 = d.manifest_hash_sha256;
  action = d.action;
  facade_method = d.facade_method;
}

abbrev sink_required : GoError
sink_required = app storage_unavailable "federation_exchange" "exchange audit sink is required"

abbrev not_supported : GoError
not_supported =
    app not_found_or_unauthorized "federation_exchange" "data channel facade not supported"

abbrev not_allowed : GoError
not_allowed = app not_found_or_unauthorized "federation_exchange" "facade method is not allowed"

module _ {W : Type 0} where
  abbrev pub noted : Call → State W → State W
  noted c s = record s { calls = c ∷ s.calls }

  abbrev pub to_result : Option GoError × W → List Call → Result GoError (Unit {0}) × State W
  to_result (none, w) calls = (ok tt, record { world = w; calls = calls })
  to_result (some e, w) calls = (err e, record { world = w; calls = calls })

  -- A collaborator that answers with an error or nil.
  abbrev pub ask : {Q : Type 0} → Ask W Q → Q → Exec (State W) GoError (Unit {0})
  ask op q s = to_result (op q s.world) s.calls

  -- A collaborator that answers with a value or an error.
  abbrev pub fetch : {Q A : Type 0} → Fetch W Q A → Q → Exec (State W) GoError A
  fetch op q s = let (r, w) = op q s.world in (r, record s { world = w })

  unfoldable pub resolve_manifest : Handler W → ContractRef → Exec (State W) GoError Manifest
  resolve_manifest h ref = elim h.manifests [
    | none ↦ λ s. (err (plain error_contract_unknown), s)
    | some op ↦ fetch op ref
  ]

  unfoldable pub validate_contract_payload :
      Handler W → Envelope → ActionContract → Exec (State W) GoError (Unit {0})
  validate_contract_payload h env action = elim h.payloads [
    | none ↦ λ s. (err (plain error_payload_invalid), s)
    | some op ↦ ask op (record { contract = env.contract; action = action; payload = env.payload })
  ]

  unfoldable pub authorize_contract_approval :
      Handler W → PolicyCheck → Exec (State W) GoError (Unit {0})
  authorize_contract_approval h check = elim h.approvals [
    | none ↦ λ s. (ok tt, s)
    | some op ↦ ask op check
  ]

  unfoldable pub authorize_policy : Handler W → PolicyCheck → Exec (State W) GoError (Unit {0})
  authorize_policy h check = elim h.policy [
    | none ↦ λ s. (err (plain error_policy_denied), s)
    | some op ↦ ask op check
  ]

  -- `h.Replay.Claim(…)`
  unfoldable pub claim_replay : Ask W ReplayClaim → ReplayClaim → Exec (State W) GoError (Unit {0})
  claim_replay op c s = ask op c (noted (claimed c) s)

  -- `h.now()`
  unfoldable pub now : {E : Type 0} → Handler W → Exec (State W) E ℤ
  now h s = let (t, w) = h.now_ms s.world in (ok t, record s { world = w })

  -- `h.audit(…)`: a sink is required.
  unfoldable pub audit : Handler W → PreflightDecision → Exec (State W) GoError (Unit {0})
  audit h d = elim h.audit [
    | none ↦ λ s. (err sink_required, s)
    | some op ↦ λ s. ask op (audit_event d) (noted (audited (audit_event d)) s)
  ]

  abbrev call :
      Fetch W AcceptedEnvelope DispatchResult
      → AcceptedEnvelope
      → Exec (State W) GoError DispatchResult
  call op accepted s = fetch op accepted (noted (dispatched accepted) s)

  -- The case of `dispatch` for the optional `DataChannelFacade`.
  unfoldable pub dispatch_data_channel :
      Option (Fetch W AcceptedEnvelope DispatchResult)
      → AcceptedEnvelope
      → Exec (State W) GoError DispatchResult
  dispatch_data_channel none accepted = λ s. (err not_supported, s)
  dispatch_data_channel (some op) accepted = call op accepted

  -- `dispatch`: one facade method for each name, and an error for any other.
  unfoldable pub dispatch : Facade W → AcceptedEnvelope → Exec (State W) GoError DispatchResult
  dispatch f accepted =
      let method = accepted.action.facade_method in
      if method == facade_get_service_catalog_view
      then call f.get_service_catalog_view accepted
      else if method == facade_open_federation_transaction
      then call f.open_federation_transaction accepted
      else if method == facade_create_federation_room
      then call f.create_federation_room accepted
      else if method == facade_submit_federation_message
      then call f.submit_federation_message accepted
      else if method == facade_request_builder_work
      then call f.request_builder_work accepted
      else if method == facade_submit_federation_result
      then call f.submit_federation_result accepted
      else if method == facade_deliver_builder_work_result
      then call f.deliver_builder_work_result accepted
      else if method == facade_submit_commercial_event
      then call f.submit_commercial_event accepted
      else if method == facade_establish_data_channel
      then dispatch_data_channel f.establish_data_channel accepted
      else λ s. (err not_allowed, s)
