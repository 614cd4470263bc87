-- ===== src/Exchange/Handler/Preflight/Gates.antt =====
-- What an admitted envelope has passed.
use xx_federation_contracts.Base.{◌≡◌, ◌≢◌, true, false, Option, some}
use xx_federation_contracts.Base.Exec.{ok}
use xx_federation_contracts.Base.Maps.{lookup}
use xx_federation_contracts.Exchange.Names.{schema_gateway_exchange_v1, partner_link_active}
use xx_federation_contracts.Exchange.Types.{
  Envelope, AuthenticatedSession, ActionContract, Manifest, ReplayClaim,
}
use xx_federation_contracts.Exchange.Session.{session_matches_envelope}
use xx_federation_contracts.Exchange.Payload.{validate_payload}
use xx_federation_contracts.Exchange.Handler.{
  Handler, Ask, State, resolve_manifest, validate_contract_payload, authorize_contract_approval,
  authorize_policy, claim_replay,
}
use xx_federation_contracts.Exchange.Handler.Preflight.{
  action_or_empty, contract_admitted, envelope_expired, manifest_expired, needs_key, replay_claim,
}

-- The gates on the authenticated session, which every action passes.
pub record IsOpen (session : AuthenticatedSession) (env : Envelope) : Type 0 where
  pub schema : env.schema_version ≡ schema_gateway_exchange_v1
  pub matched : session_matches_envelope session env ≡ true
  pub alive : session.kill_switch_enabled ≡ false
  pub linked : session.partner_link_state ≡ partner_link_active

module _ {W : Type 0} where
  -- A replay cache, where there is one, has accepted the envelope's claim.
  abbrev pub IsClaimed : Envelope → Option (Ask W ReplayClaim) → Type 0
  IsClaimed env replay =
      (op : Ask W ReplayClaim)
      → replay ≡ some op
      → (s : State W) × ((claim_replay op (replay_claim env) s).0 ≡ ok tt)

module _ {W : Type 0} (h : Handler W) where
  -- The envelope is not past its expiry at some reading of the clock.
  abbrev pub IsFresh : Envelope → Type 0
  IsFresh env = (w : W) × (envelope_expired (h.now_ms w).0 env h.clock_skew_ms ≡ false)

  -- The gates that the manifest adds.
  pub record IsContracted (session : AuthenticatedSession) (env : Envelope) (manifest : Manifest)
      (action : ActionContract) : Type 0 where
    pub resolved : (s : State W) × ((resolve_manifest h env.contract s).0 ≡ ok manifest)
    pub found : action ≡ action_or_empty (lookup env.action manifest.actions)
    pub admitted : contract_admitted manifest env ≡ true
    pub approved :
        (s : State W) × ((authorize_contract_approval h
            (record { session = session; envelope = env; manifest = manifest; action = action })
            s).0
          ≡ ok tt)
    pub current : (w : W) × (manifest_expired (h.now_ms w).0 manifest h.clock_skew_ms ≡ false)
    pub keyed : needs_key action ≡ true → env.idempotency_key ≢ ""
    pub payload : validate_payload h.platform env action ≡ true
    pub validated : (s : State W) × ((validate_contract_payload h env action s).0 ≡ ok tt)
    pub permitted :
        (s : State W) × ((authorize_policy h
            (record { session = session; envelope = env; manifest = manifest; action = action })
            s).0
          ≡ ok tt)
    pub cached : needs_key action ≡ true → (op : Ask W ReplayClaim) × (h.replay ≡ some op)
