-- ===== src/Exchange/Handler/Serve/Requests.antt =====
-- `Handle` as a whole, discovery included, and sequences of requests.
use xx_federation_contracts.Base.{
  String, refl, inl, inr, Bool, true, false, List, [], ◌∷◌, Option, none, some, Bool-cases, not,
  if◌then◌else◌, ◌==◌, is_empty,
}
use xx_federation_contracts.Base.Exec.{Result, ok, err, Exec, ◌>>=◌}
use xx_federation_contracts.Base.Int.{ℤ}
use xx_federation_contracts.Apperrors.{GoError, message}
use xx_federation_contracts.Exchange.Types.{
  Envelope, AuthenticatedSession, Response, ReplayClaim, SignedManifestDocument, empty_manifest,
  DispatchResult,
}
use xx_federation_contracts.Exchange.Names.{
  schema_gateway_exchange_v1, partner_link_active, action_discover_contract_manifests,
}
use xx_federation_contracts.Exchange.Session.{session_matches_envelope}
use xx_federation_contracts.Exchange.Payload.{validate_dispatch_result}
use xx_federation_contracts.Exchange.Handler.{Handler, Ask, Fetch, State, claim_replay, now}
use xx_federation_contracts.Exchange.Handler.Preflight.{allow, deny, replay_claim, envelope_expired}
use xx_federation_contracts.Exchange.Handler.Preflight.Sound.{claim_replay-calls}
use xx_federation_contracts.Exchange.Handler.Discovery.{
  bare, with_error, refuse, answer_payload, answer_discovery, serve_discovery, after_claim,
  claim_discovery, handle_manifest_discovery, facade_denial_code, discovery_action,
}
use xx_federation_contracts.Exchange.Handler.Serve.{handle, handle_normalized}
use xx_federation_contracts.Exchange.Handler.Serve.Invariant.{IsLawful, IsHandled, IsAnswered}
use xx_federation_contracts.Exchange.Handler.Serve.Steps.{audited_answer}
use xx_federation_contracts.Exchange.Handler.Serve.Lawful.{handle_exchange-IsHandled}

-- An action that keeps the record lawful and answers well.
record Handles {W : Type 0} (h : Handler W) (m : Exec (State W) GoError Response) : Type 0 where
  at : (s : State W) → IsLawful h s.calls → IsHandled h (m s)

module _ {W : Type 0} {h : Handler W} {m n : Exec (State W) GoError Response} where
  if-Handles : (b : Bool) → Handles h m → Handles h n → Handles h (if b then m else n)
  if-Handles true hm hn = hm
  if-Handles false hm hn = hn

module _ {W : Type 0} (h : Handler W) (session : AuthenticatedSession) (env : Envelope) where
  refuse-IsHandled :
      (code : String) (s : State W) → IsLawful h s.calls → IsHandled h (refuse h session env code s)
  unfolding refuse
  refuse-IsHandled code s lawful =
      audited_answer h (bare (deny session env code empty_manifest discovery_action)) s lawful
        (inr (refl, refl, tt))

  encoded_cases :
      (payload : Option String) (s : State W)
      → IsLawful h s.calls
      → IsHandled h (answer_payload h session env payload s)
  unfolding answer_payload
  encoded_cases none s lawful = refuse-IsHandled _ s lawful
  encoded_cases (some payload) s lawful =
      let answer : DispatchResult = record { status = "ok"; payload_json = payload } in
      elim (Bool-cases (validate_dispatch_result h.platform answer)) [
        | inl good ↦ rw good (
            audited_answer h
              (record {
                decision = allow session env empty_manifest discovery_action;
                result = answer;
                error = none;
              })
              s lawful (inl (refl, refl, good)))
        | inr bad ↦ rw bad (refuse-IsHandled _ s lawful)
      ]

  documents_cases :
      (r : Result GoError (List SignedManifestDocument)) (s : State W)
      → IsLawful h s.calls
      → IsHandled h (answer_discovery h session env r s)
  unfolding answer_discovery
  documents_cases (err e) s lawful =
      audited_answer h
        (with_error (deny session env (facade_denial_code e) empty_manifest discovery_action)
          (facade_denial_code e) (message e))
        s lawful (inr (refl, refl, refl))
  documents_cases (ok found) s lawful = encoded_cases _ s lawful

  serve_discovery-IsHandled :
      (op : Option (Fetch W AuthenticatedSession (List SignedManifestDocument))) (s : State W)
      → IsLawful h s.calls
      → IsHandled h (serve_discovery h session env op s)
  unfolding serve_discovery ◌>>=◌
  serve_discovery-IsHandled none s lawful = refuse-IsHandled _ s lawful
  serve_discovery-IsHandled (some op) s lawful = documents_cases (op session s.world).0 _ lawful

  claimed_cases :
      (r : Result GoError (Unit {0})) (s : State W)
      → IsLawful h s.calls
      → IsHandled h (after_claim h session env r s)
  unfolding after_claim
  claimed_cases (err e) s lawful = refuse-IsHandled _ s lawful
  claimed_cases (ok u) s lawful = serve_discovery-IsHandled h.discovery s lawful

  claim_discovery-IsHandled :
      (op : Option (Ask W ReplayClaim)) (s : State W)
      → IsLawful h s.calls
      → IsHandled h (claim_discovery h session env op s)
  unfolding claim_discovery ◌>>=◌
  claim_discovery-IsHandled none s lawful = serve_discovery-IsHandled h.discovery s lawful
  claim_discovery-IsHandled (some op) s lawful =
      claimed_cases (claim_replay op (replay_claim env) s).0
        (claim_replay op (replay_claim env) s).1
        (rw (claim_replay-calls op (replay_claim env) s) lawful)

  refuse-Handles : (code : String) → Handles h (refuse h session env code)
  refuse-Handles code = record { at = refuse-IsHandled code }

  now-Handles :
      (k : ℤ → Exec (State W) GoError Response)
      → ((t : ℤ) → Handles h (k t))
      → Handles h (now h >>= k)
  unfolding ◌>>=◌ now
  now-Handles k good = record {
    at = λ s lawful.
        (good (h.now_ms s.world).0).at (record s { world = (h.now_ms s.world).1 }) lawful;
  }

  handle_manifest_discovery-Handles : Handles h (handle_manifest_discovery h session env)
  unfolding handle_manifest_discovery
  handle_manifest_discovery-Handles =
      if-Handles (not (env.schema_version == schema_gateway_exchange_v1)) (refuse-Handles _) (
        if-Handles (not (session_matches_envelope session env)) (refuse-Handles _) (
          if-Handles session.kill_switch_enabled (refuse-Handles _) (
            if-Handles (not (session.partner_link_state == partner_link_active)) (refuse-Handles _)
              (now-Handles _ (λ t.
                if-Handles (envelope_expired t env h.clock_skew_ms) (refuse-Handles _) (
                  if-Handles (not (is_empty env.payload)) (refuse-Handles _)
                    (record { at = claim_discovery-IsHandled h.replay })))))))

module _ {W : Type 0} (h : Handler W) where
  handle_normalized-Handles :
      (session : AuthenticatedSession) (env : Envelope)
      → Handles h (handle_normalized h session env)
  unfolding handle_normalized
  handle_normalized-Handles session env =
      if-Handles (env.action == action_discover_contract_manifests)
        (handle_manifest_discovery-Handles h session env)
        (record { at = handle_exchange-IsHandled h session env })

  -- The gateway answers a request, and serves on from the state that it leaves.
  abbrev pub serve_all : List (AuthenticatedSession × Envelope) → State W → State W
  serve_all [] s = s
  serve_all ((session, env) ∷ requests) s = serve_all requests (handle h session env s).1

  -- From a record of calls that is lawful, such as the empty one, and whatever requests a gateway
  -- then serves: every facade call in its record was made for an envelope that had passed all the
  -- gates, directly after the audit of the decision that allows it.
  pub serve_all-IsLawful :
      (requests : List (AuthenticatedSession × Envelope)) (s : State W)
      → IsLawful h s.calls
      → IsLawful h (serve_all requests s).calls
  unfolding handle
  serve_all-IsLawful [] s lawful = lawful
  serve_all-IsLawful ((session, env) ∷ requests) s lawful =
      serve_all-IsLawful requests (handle h session env s).1
        ((handle_normalized-Handles _ _).at s lawful).0

  -- From a record of calls that is lawful, an answer of the gateway that is no error either allows,
  -- with no error information and a result in which no private topology is found, or denies, with an
  -- empty result and, if it has error information, the decision's denial code in it; and the last
  -- audit in the record is of the answered decision.
  pub handle-IsAnswered :
      (session : AuthenticatedSession) (env : Envelope) (s : State W)
      → IsLawful h s.calls
      → IsAnswered h.platform (handle h session env s).0 (handle h session env s).1.calls
  unfolding handle
  handle-IsAnswered session env s lawful = ((handle_normalized-Handles _ _).at s lawful).1
