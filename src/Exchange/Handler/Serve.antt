-- ===== src/Exchange/Handler/Serve.antt =====
-- contracts/exchange/exchange.go: `Handler.Handle`.
pub mod Invariant
mod Steps
pub mod Lawful
pub mod Requests
pub mod Blocked
use xx_federation_contracts.Base.{
  String, Bool, true, false, ◌&&◌, not, Option, none, some, ◌==◌, if◌then◌else◌,
}
use xx_federation_contracts.Base.Exec.{Result, ok, err, Exec, pure, ◌>>=◌, ◌>>◌}
use xx_federation_contracts.Apperrors.{GoError, message}
use xx_federation_contracts.Exchange.Names.{
  action_discover_contract_manifests, action_get_service_catalog_view,
  action_establish_data_channel, facade_get_service_catalog_view, facade_establish_data_channel,
  decision_allow, error_payload_invalid, error_gateway_unavailable,
}
use xx_federation_contracts.Exchange.Types.{
  Envelope, AuthenticatedSession, ActionContract, empty_action, empty_ref, Manifest,
  AcceptedEnvelope, DispatchResult, Response,
}
use xx_federation_contracts.Exchange.Session.{normalize_session, normalize_envelope, ref_eq}
use xx_federation_contracts.Exchange.Payload.{validate_dispatch_result}
use xx_federation_contracts.Exchange.Handler.{Handler, Facade, State, audit, dispatch}
use xx_federation_contracts.Exchange.Handler.Preflight.{
  Denial, Verdict, deny, decide, preflight, preflight_manifest_independent,
}
use xx_federation_contracts.Exchange.Handler.Discovery.{
  bare, with_error, attempt, facade_denial_code, handle_manifest_discovery,
}

abbrev pub catalog_view_action : ActionContract
catalog_view_action = record empty_action {
  action = action_get_service_catalog_view;
  facade_method = facade_get_service_catalog_view;
}

abbrev pub data_channel_action : ActionContract
data_channel_action = record empty_action {
  action = action_establish_data_channel;
  facade_method = facade_establish_data_channel;
}

abbrev pub is_free_catalog_view : Envelope → Bool
is_free_catalog_view env =
    env.action == action_get_service_catalog_view && ref_eq env.contract empty_ref

abbrev pub is_free_data_channel : Envelope → Bool
is_free_data_channel env =
    env.action == action_establish_data_channel && ref_eq env.contract empty_ref

module _ {W : Type 0} (h : Handler W) (session : AuthenticatedSession) (env : Envelope) where
  -- The `switch` of `Handle`.
  unfoldable pub select_preflight : Exec (State W) Denial (Manifest × ActionContract)
  select_preflight =
      if is_free_catalog_view env
      then preflight_manifest_independent h session env catalog_view_action
      else if is_free_data_channel env
      then preflight_manifest_independent h session env data_channel_action
      else preflight h session env

  -- A denial after an allowed preflight: audited, and answered with the response that carries it.
  unfoldable pub deny_late : String → Option String → Verdict → Exec (State W) GoError Response
  unfolding deny
  deny_late code none v =
      let d = deny session env code v.manifest v.action in do audit h d; pure (bare d)
  deny_late code (some text) v =
      let d = deny session env code v.manifest v.action in
      do audit h d; pure (with_error d code text)

  -- The checks of the facade's outcome.
  unfoldable pub answer : Verdict → Result GoError DispatchResult → Exec (State W) GoError Response
  answer v (err e) = deny_late (facade_denial_code e) (some (message e)) v
  answer v (ok result) =
      if not (validate_dispatch_result h.platform result)
      then deny_late error_payload_invalid (some error_payload_invalid) v
      else pure (record { decision = v.decision; result = result; error = none })

  abbrev pub accepted_envelope : Verdict → AcceptedEnvelope
  accepted_envelope v = record {
    session = session;
    envelope = env;
    manifest = v.manifest;
    action = v.action;
    decision = v.decision;
  }

  -- The call of the facade, if there is one.
  unfoldable pub ask_facade : Option (Facade W) → Verdict → Exec (State W) GoError Response
  unfolding answer
  ask_facade none v = deny_late error_gateway_unavailable none v
  ask_facade (some facade) v = do
    outcome ← attempt (dispatch facade (accepted_envelope v))
    answer v outcome

  -- The part after the preflight's decision is audited.
  unfoldable pub serve : Verdict → Exec (State W) GoError Response
  unfolding ask_facade
  serve v =
      if not (v.decision.decision == decision_allow)
      then pure (bare v.decision)
      else ask_facade h.facade v

  unfoldable pub handle_exchange : Exec (State W) GoError Response
  unfolding select_preflight serve
  handle_exchange = do
    outcome ← attempt select_preflight
    let v = decide session env outcome
    audit h v.decision
    serve v

module _ {W : Type 0} (h : Handler W) where
  -- `Handle`, after the two normalisations.
  unfoldable pub handle_normalized :
      AuthenticatedSession → Envelope → Exec (State W) GoError Response
  handle_normalized session env =
      if env.action == action_discover_contract_manifests
      then handle_manifest_discovery h session env
      else handle_exchange h session env

  -- `Handle`
  unfoldable pub handle : AuthenticatedSession → Envelope → Exec (State W) GoError Response
  unfolding handle_normalized
  handle session env = handle_normalized (normalize_session session) (normalize_envelope env)
