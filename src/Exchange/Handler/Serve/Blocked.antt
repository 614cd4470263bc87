-- ===== src/Exchange/Handler/Serve/Blocked.antt =====
-- Requests that the gates on the session stop.
use xx_federation_contracts.Base.{
  String, ◌≡◌, refl, Bool, false, not, ◌&&◌, ◌==◌, if◌then◌else◌, arith, inl, inr, Bool-cases,
}
use xx_federation_contracts.Base.Exec.{err, Exec, exec, pure, ◌>>◌, ◌>>=◌}
use xx_federation_contracts.Apperrors.{GoError}
use xx_federation_contracts.Exchange.Names.{
  schema_gateway_exchange_v1, partner_link_active, error_payload_invalid, error_unauthenticated,
  error_kill_switch, error_partner_link_denied, decision_deny, action_discover_contract_manifests,
}
use xx_federation_contracts.Exchange.Types.{
  Envelope, AuthenticatedSession, ActionContract, empty_manifest, empty_action, PreflightDecision,
  Response,
}
use xx_federation_contracts.Exchange.Session.{
  session_matches_envelope, normalize_session, normalize_envelope,
}
use xx_federation_contracts.Exchange.Handler.{Handler, State, audit}
use xx_federation_contracts.Exchange.Handler.Preflight.{
  Denial, denied, decide, deny, preflight, preflight_manifest_independent,
}
use xx_federation_contracts.Exchange.Handler.Discovery.{
  bare, discovery_action, refuse, handle_manifest_discovery,
}
use xx_federation_contracts.Exchange.Handler.Serve.{
  handle, handle_normalized, handle_exchange, select_preflight, serve, catalog_view_action,
  data_channel_action, is_free_catalog_view, is_free_data_channel,
}

-- The session gates: schema, identity, kill switch and partner link.
abbrev pub is_open : AuthenticatedSession → Envelope → Bool
is_open session env =
    env.schema_version == schema_gateway_exchange_v1
    && session_matches_envelope session env
    && not session.kill_switch_enabled
    && session.partner_link_state == partner_link_active

-- The code of the first gate that stops a request.
abbrev pub session_code : AuthenticatedSession → Envelope → String
session_code session env =
    if not (env.schema_version == schema_gateway_exchange_v1)
    then error_payload_invalid
    else if not (session_matches_envelope session env)
    then error_unauthenticated
    else if session.kill_switch_enabled
    then error_kill_switch
    else error_partner_link_denied

module _ {W : Type 0} (h : Handler W) (session : AuthenticatedSession) (env : Envelope)
    (shut : is_open session env ≡ false) where
  preflight_shut :
      (s : State W)
      → preflight h session env s
        ≡ (err (denied (session_code session env) empty_manifest empty_action), s)
  unfolding preflight exec
  preflight_shut s = ground arith

  free_shut :
      (action : ActionContract) (s : State W)
      → preflight_manifest_independent h session env action s
        ≡ (err (denied (session_code session env) empty_manifest action), s)
  unfolding preflight_manifest_independent exec
  free_shut action s = ground arith

  discovery_shut :
      (s : State W)
      → handle_manifest_discovery h session env s
        ≡ refuse h session env (session_code session env) s
  unfolding handle_manifest_discovery
  discovery_shut s = ground arith

-- The whole of a request that is stopped: the audit of a denial with the code, and its answer.
abbrev pub IsStopped :
    {W : Type 0} → Handler W → String → Exec (State W) GoError Response → State W → Type 0
IsStopped h code m s =
    (d : PreflightDecision) × (d.decision ≡ decision_deny)
    × (d.denial_code ≡ code)
    × (m s ≡ (audit h d >> pure (bare d)) s)

module _ {W : Type 0} (h : Handler W) (session : AuthenticatedSession) (env : Envelope) where
  handle_exchange-IsStopped :
      (x : Denial) (s : State W)
      → select_preflight h session env s ≡ (err x, s)
      → IsStopped h x.code (handle_exchange h session env) s
  unfolding handle_exchange decide serve ◌>>=◌
  handle_exchange-IsStopped x s e = (deny session env x.code x.manifest x.action, refl, refl, rw e)

  select_shut :
      (s : State W)
      → is_open session env ≡ false
      → IsStopped h (session_code session env) (handle_exchange h session env) s
  unfolding select_preflight
  select_shut s shut = elim (Bool-cases (is_free_catalog_view env)) [
    | inl view ↦
        handle_exchange-IsStopped
          (denied (session_code session env) empty_manifest catalog_view_action) s
          (rw view (free_shut h session env shut catalog_view_action s))
    | inr other ↦ elim (Bool-cases (is_free_data_channel env)) [
      | inl channel ↦
          handle_exchange-IsStopped
            (denied (session_code session env) empty_manifest data_channel_action) s
            (rw (other, channel) (free_shut h session env shut data_channel_action s))
      | inr rest ↦
          handle_exchange-IsStopped (denied (session_code session env) empty_manifest empty_action)
            s (rw (other, rest) (preflight_shut h session env shut s))
    ]
  ]

  handle_manifest_discovery-IsStopped :
      (s : State W)
      → is_open session env ≡ false
      → IsStopped h (session_code session env) (handle_manifest_discovery h session env) s
  unfolding refuse
  handle_manifest_discovery-IsStopped s shut = (
    deny session env (session_code session env) empty_manifest discovery_action,
    refl,
    refl,
    discovery_shut h session env shut s,
  )

  handle_normalized-IsStopped :
      (s : State W)
      → is_open session env ≡ false
      → IsStopped h (session_code session env) (handle_normalized h session env) s
  unfolding handle_normalized
  handle_normalized-IsStopped s shut =
      elim (Bool-cases (env.action == action_discover_contract_manifests)) [
        | inl discovery ↦ rw discovery (handle_manifest_discovery-IsStopped s shut)
        | inr other ↦ rw other (select_shut s shut)
      ]

-- A request that fails the schema, identity, kill-switch or partner-link gate, after normalisation,
-- is denied with the code of the first of these gates that it fails, whatever its action: nothing
-- is asked of any collaborator but the audit of that denial.
pub handle-IsStopped :
    {W : Type 0} (h : Handler W) (session : AuthenticatedSession) (env : Envelope) (s : State W)
    → is_open (normalize_session session) (normalize_envelope env) ≡ false
    → IsStopped h
        (session_code (normalize_session session) (normalize_envelope env))
        (handle h session env)
        s
unfolding handle
handle-IsStopped h session env s shut =
    handle_normalized-IsStopped h (normalize_session session) (normalize_envelope env) s shut
