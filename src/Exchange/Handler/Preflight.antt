-- ===== src/Exchange/Handler/Preflight.antt =====
-- contracts/exchange/exchange.go: the two preflights, and the decision that each outcome becomes.
pub mod Gates
mod Rules
pub mod Sound
pub mod Admission
use Prim.Native.String.{◌++◌}
use xx_federation_contracts.Base.{
  ℕ, String, Bool, true, false, ◌&&◌, ◌||◌, not, Option, none, some, ◌==◌, if◌then◌else◌, List,
}
use xx_federation_contracts.Base.Int.{ℤ, pos, ltb_ℤ, is_nonpositive, add64}
use xx_federation_contracts.Base.Exec.{Result, ok, err, Exec, pure, require, ◌>>=◌, ◌>>◌}
use xx_federation_contracts.Base.Maps.{lookup, is_some}
use xx_federation_contracts.Apperrors.{GoError}
use xx_federation_contracts.Exchange.Names.{
  schema_gateway_exchange_v1, schema_preflight_v1, decision_allow, decision_deny,
  partner_link_active, error_unauthenticated, error_partner_link_denied, error_contract_unknown,
  error_contract_mismatch, error_replay_detected, error_replay_unavailable, error_payload_invalid,
  error_expired, error_policy_denied, error_kill_switch,
}
use xx_federation_contracts.Exchange.Types.{
  Envelope, AuthenticatedSession, ActionContract, empty_action, Manifest, empty_manifest,
  ReplayClaim, PolicyCheck, PreflightDecision,
}
use xx_federation_contracts.Exchange.Session.{
  session_matches_envelope, manifest_matches, allowed_facade_method, partner_link_allowed,
}
use xx_federation_contracts.Exchange.Payload.{validate_payload}
use xx_federation_contracts.Exchange.Handler.{
  Handler, Ask, State, resolve_manifest, validate_contract_payload, authorize_contract_approval,
  authorize_policy, claim_replay, now,
}

-- `baseDecision`
unfoldable pub base_decision :
    AuthenticatedSession
    → Envelope
    → Manifest
    → ActionContract
    → String
    → String
    → PreflightDecision
base_decision session env manifest action decision denial_code = record {
  schema_version = schema_preflight_v1;
  decision_id = "preflight:" ++ env.envelope_id;
  local_tenant_id = session.local_tenant_id;
  local_gateway_id = session.local_gateway_id;
  envelope_id = env.envelope_id;
  correlation_id = env.correlation_id;
  decision = decision;
  denial_code = denial_code;
  authenticated_remote_gateway_id = session.remote_gateway_id;
  remote_tenant_id = session.remote_tenant_id;
  partner_link_id = env.partner_link_id;
  contract_id = env.contract.contract_id;
  manifest_hash_sha256 =
      if not (manifest.manifest_hash_sha256 == "")
      then manifest.manifest_hash_sha256
      else env.contract.manifest_hash_sha256;
  action = env.action;
  facade_method = action.facade_method;
  audit_event_id = "audit:" ++ (env.envelope_id ++ (":" ++ decision));
}

unfoldable pub allow :
    AuthenticatedSession → Envelope → Manifest → ActionContract → PreflightDecision
unfolding base_decision
allow session env manifest action = base_decision session env manifest action decision_allow ""

unfoldable pub deny :
    AuthenticatedSession → Envelope → String → Manifest → ActionContract → PreflightDecision
unfolding base_decision
deny session env code manifest action = base_decision session env manifest action decision_deny code

-- An early return of a preflight: the code, and the manifest and the action known so far.
pub record Denial : Type 0 where
  pub code : String
  pub manifest : Manifest
  pub action : ActionContract

abbrev pub denied : String → Manifest → ActionContract → Denial
denied code manifest action = record { code = code; manifest = manifest; action = action }

-- The three results of a preflight.
pub record Verdict : Type 0 where
  pub decision : PreflightDecision
  pub manifest : Manifest
  pub action : ActionContract

unfoldable pub decide :
    AuthenticatedSession → Envelope → Result Denial (Manifest × ActionContract) → Verdict
unfolding allow deny
decide session env (ok (manifest, action)) = record {
  decision = allow session env manifest action;
  manifest = manifest;
  action = action;
}
decide session env (err d) = record {
  decision = deny session env d.code d.manifest d.action;
  manifest = d.manifest;
  action = d.action;
}

-- `if err != nil { return deny(…) }`
module _ {S E D A : Type 0} where
  abbrev pub replace_error : Result E A × S → D → Result D A × S
  replace_error (ok a, s) d = (ok a, s)
  replace_error (err e, s) d = (err d, s)

  unfoldable pub or_deny : Exec S E A → D → Exec S D A
  or_deny m d s = replace_error (m s) d

-- `manifest.Actions[env.Action]`: the zero action if there is none.
abbrev pub action_or_empty : Option ActionContract → ActionContract
action_or_empty none = empty_action
action_or_empty (some action) = action

-- `now > expires+h.ClockSkewMS`, in the machine's arithmetic.
unfoldable pub is_past : ℤ → ℤ → ℤ → Bool
is_past t expires skew = ltb_ℤ (add64 expires skew) t

unfoldable pub envelope_expired : ℤ → Envelope → ℤ → Bool
unfolding is_past
envelope_expired t env skew = is_nonpositive env.expires_at_ms || is_past t env.expires_at_ms skew

unfoldable pub manifest_expired : ℤ → Manifest → ℤ → Bool
unfolding is_past
manifest_expired t manifest skew =
    ltb_ℤ (pos 0) manifest.expires_at_ms && is_past t manifest.expires_at_ms skew

unfoldable pub contract_admitted : Manifest → Envelope → Bool
contract_admitted manifest env =
    let action = lookup env.action manifest.actions in
    manifest_matches manifest env.contract
    && not manifest.revoked
    && is_some action
    && allowed_facade_method (action_or_empty action).facade_method
    && partner_link_allowed (action_or_empty action) env.partner_link_id

abbrev pub replay_claim : Envelope → ReplayClaim
replay_claim env = record {
  envelope_id = env.envelope_id;
  idempotency_key = env.idempotency_key;
  expires_at_ms = env.expires_at_ms;
}

abbrev pub needs_key : ActionContract → Bool
needs_key action = action.mutating || action.idempotency_required

module _ {W : Type 0} (env : Envelope) where
  -- The replay step: a claim, or a refusal where a claim is needed and there is no cache.
  unfoldable pub claim_step :
      Option (Ask W ReplayClaim) → Manifest → ActionContract → Exec (State W) Denial (Unit {0})
  claim_step none manifest action =
      require (not (needs_key action)) (denied error_replay_unavailable manifest action)
  claim_step (some op) manifest action =
      or_deny (claim_replay op (replay_claim env)) (denied error_replay_detected manifest action)

  -- `if h.Replay != nil { … }`, with no refusal where there is no cache.
  unfoldable pub claim_if_present :
      Option (Ask W ReplayClaim) → ActionContract → Exec (State W) Denial (Unit {0})
  claim_if_present none action = pure tt
  claim_if_present (some op) action =
      or_deny (claim_replay op (replay_claim env))
        (denied error_replay_detected empty_manifest action)

module _ {W : Type 0} (h : Handler W) (session : AuthenticatedSession) (env : Envelope) where
  -- `preflight`
  unfoldable pub preflight : Exec (State W) Denial (Manifest × ActionContract)
  preflight = do
    require (env.schema_version == schema_gateway_exchange_v1)
        (denied error_payload_invalid empty_manifest empty_action)
    require (session_matches_envelope session env)
        (denied error_unauthenticated empty_manifest empty_action)
    require (not session.kill_switch_enabled) (denied error_kill_switch empty_manifest empty_action)
    require (session.partner_link_state == partner_link_active)
        (denied error_partner_link_denied empty_manifest empty_action)
    manifest ←
        or_deny (resolve_manifest h env.contract)
          (denied error_contract_unknown empty_manifest empty_action)
    let action = action_or_empty (lookup env.action manifest.actions)
    require (contract_admitted manifest env) (denied error_contract_mismatch manifest action)
    let check : PolicyCheck = record {
      session = session;
      envelope = env;
      manifest = manifest;
      action = action;
    }
    or_deny (authorize_contract_approval h check) (denied error_contract_mismatch manifest action)
    t ← now h
    require
        (not
          (envelope_expired t env h.clock_skew_ms || manifest_expired t manifest h.clock_skew_ms))
        (denied error_expired manifest action)
    require (not (needs_key action && env.idempotency_key == ""))
        (denied error_replay_detected manifest action)
    require (validate_payload h.platform env action) (denied error_payload_invalid manifest action)
    or_deny (validate_contract_payload h env action) (denied error_payload_invalid manifest action)
    or_deny (authorize_policy h check) (denied error_policy_denied manifest action)
    claim_step env h.replay manifest action
    pure (manifest, action)

  -- `preflightManifestIndependent`
  unfoldable pub preflight_manifest_independent :
      ActionContract → Exec (State W) Denial (Manifest × ActionContract)
  preflight_manifest_independent action = do
    require (env.schema_version == schema_gateway_exchange_v1)
        (denied error_payload_invalid empty_manifest action)
    require (session_matches_envelope session env)
        (denied error_unauthenticated empty_manifest action)
    require (not session.kill_switch_enabled) (denied error_kill_switch empty_manifest action)
    require (session.partner_link_state == partner_link_active)
        (denied error_partner_link_denied empty_manifest action)
    t ← now h
    require (not (envelope_expired t env h.clock_skew_ms))
        (denied error_expired empty_manifest action)
    claim_if_present env h.replay action
    pure (empty_manifest, action)
