-- ===== src/Exchange/Handler/Discovery.antt =====
-- contracts/exchange/discovery.go: the discovery of signed manifests, which no manifest gates.
use xx_federation_contracts.Base.{
  String, not, none, some, Option, ◌==◌, List, if◌then◌else◌, is_empty,
}
use xx_federation_contracts.Base.Exec.{Result, ok, err, Exec, pure, ◌>>=◌, ◌>>◌}
use xx_federation_contracts.Base.Text.{trim_space}
use xx_federation_contracts.Apperrors.{GoError, message, denial_code_of}
use xx_federation_contracts.Exchange.Names.{
  schema_gateway_exchange_v1, schema_manifest_discovery_v1, partner_link_active,
  error_unauthenticated, error_partner_link_denied, error_replay_detected, error_payload_invalid,
  error_expired, error_kill_switch, error_gateway_unavailable, action_discover_contract_manifests,
  facade_discover_contract_manifests,
}
use xx_federation_contracts.Exchange.Types.{
  Envelope, AuthenticatedSession, ActionContract, empty_action, empty_manifest, PreflightDecision,
  DispatchResult, empty_result, Response, ReplayClaim, SignedManifestDocument,
}
use xx_federation_contracts.Exchange.Session.{session_matches_envelope}
use xx_federation_contracts.Exchange.Payload.{validate_dispatch_result}
use xx_federation_contracts.Exchange.Handler.{
  Handler, Ask, Fetch, State, noted, fetch, discovered, audit, now, claim_replay,
}
use xx_federation_contracts.Exchange.Handler.Preflight.{allow, deny, envelope_expired, replay_claim}

-- `Response{Decision: decision}`
abbrev pub bare : PreflightDecision → Response
bare d = record { decision = d; result = empty_result; error = none }

-- `Response{Decision: decision, Error: &ErrorInfo{…}}`
abbrev pub with_error : PreflightDecision → String → String → Response
with_error d code text = record {
  decision = d;
  result = empty_result;
  error = some (record { code = code; text = text });
}

-- `facadeDenialCode`
unfoldable pub facade_denial_code : GoError → String
facade_denial_code e = elim (denial_code_of e) [
  | none ↦ error_gateway_unavailable
  | some code ↦ if trim_space code == "" then error_gateway_unavailable else trim_space code
]

abbrev pub discovery_action : ActionContract
discovery_action = record empty_action {
  action = action_discover_contract_manifests;
  facade_method = facade_discover_contract_manifests;
}

-- Go runs an action for its outcome, also where it fails.
module _ {S D E A : Type 0} where
  abbrev pub kept : Result D A × S → Result E (Result D A) × S
  kept (r, s) = (ok r, s)

  abbrev pub attempt : Exec S D A → Exec S E (Result D A)
  attempt m s = kept (m s)

module _ {W : Type 0} (h : Handler W) (session : AuthenticatedSession) (env : Envelope) where
  -- `refuse`: a denial is audited before it is answered.
  unfoldable pub refuse : String → Exec (State W) GoError Response
  unfolding deny
  refuse code =
      let d = deny session env code empty_manifest discovery_action in do audit h d; pure (bare d)

  abbrev ask_documents :
      Fetch W AuthenticatedSession (List SignedManifestDocument)
      → Exec (State W) GoError (List SignedManifestDocument)
  ask_documents op s = fetch op session (noted (discovered session) s)

  -- The part after the result is encoded.
  unfoldable pub answer_payload : Option String → Exec (State W) GoError Response
  unfolding allow refuse
  answer_payload none = refuse error_gateway_unavailable
  answer_payload (some payload) =
      let answer : DispatchResult = record { status = "ok"; payload_json = payload } in
      let d = allow session env empty_manifest discovery_action in
      if not (validate_dispatch_result h.platform answer)
      then refuse error_payload_invalid
      else do audit h d; pure (record { decision = d; result = answer; error = none })

  -- The part after the documents are asked for. A nil list and an empty one are the same here.
  unfoldable pub answer_discovery :
      Result GoError (List SignedManifestDocument) → Exec (State W) GoError Response
  unfolding answer_payload deny
  answer_discovery (err e) =
      let d = deny session env (facade_denial_code e) empty_manifest discovery_action in
      do audit h d; pure (with_error d (facade_denial_code e) (message e))
  answer_discovery (ok documents) = answer_payload (
      h.platform.json_marshal_discovery
        (record { schema_version = schema_manifest_discovery_v1; manifests = documents }))

  -- The part after the gates and the replay claim.
  unfoldable pub serve_discovery :
      Option (Fetch W AuthenticatedSession (List SignedManifestDocument))
      → Exec (State W) GoError Response
  unfolding answer_discovery
  serve_discovery none = refuse error_gateway_unavailable
  serve_discovery (some op) = do documents ← attempt (ask_documents op); answer_discovery documents

  unfoldable pub after_claim : Result GoError (Unit {0}) → Exec (State W) GoError Response
  unfolding serve_discovery
  after_claim (err e) = refuse error_replay_detected
  after_claim (ok unit) = serve_discovery h.discovery

  unfoldable pub claim_discovery : Option (Ask W ReplayClaim) → Exec (State W) GoError Response
  unfolding after_claim
  claim_discovery none = serve_discovery h.discovery
  claim_discovery (some op) = do
    claim ← attempt (claim_replay op (replay_claim env))
    after_claim claim

  -- `handleManifestDiscovery`
  unfoldable pub handle_manifest_discovery : Exec (State W) GoError Response
  unfolding claim_discovery
  handle_manifest_discovery =
      if not (env.schema_version == schema_gateway_exchange_v1)
      then refuse error_payload_invalid
      else if not (session_matches_envelope session env)
      then refuse error_unauthenticated
      else if session.kill_switch_enabled
      then refuse error_kill_switch
      else if not (session.partner_link_state == partner_link_active)
      then refuse error_partner_link_denied
      else do
        t ← now h
        if envelope_expired t env h.clock_skew_ms
            then refuse error_expired
            else if not (is_empty env.payload)
            then refuse error_payload_invalid
            else claim_discovery h.replay
