-- ===== src/Exchange/Handler/Serve/Steps.antt =====
-- The steps of a request after its preflight, against the invariant.
use xx_federation_contracts.Base.{
  String, ◌≡◌, refl, ◌⊎◌, inl, inr, List, ◌∷◌, ap, test_of_eq, Option, none, some, arith,
  Bool-cases, if-holds, ◌==◌,
}
use xx_federation_contracts.Base.Exec.{Result, Exec, ok, err, pure, continue, ◌>>◌, ◌>>=◌}
use xx_federation_contracts.Apperrors.{GoError}
use xx_federation_contracts.Exchange.Types.{
  Envelope, AuthenticatedSession, AcceptedEnvelope, Response, DispatchResult, PreflightDecision,
}
use xx_federation_contracts.Exchange.Handler.{
  Handler, State, Facade, Call, audited, dispatched, audit_event, audit, dispatch,
  dispatch_data_channel, Fetch,
}
use xx_federation_contracts.Exchange.Handler.Serve.Invariant.{
  IsLawful, IsHandled, IsCoherent, IsAuthorized, last_audit,
}
use xx_federation_contracts.Exchange.Handler.Serve.{
  deny_late, answer, serve, ask_facade, accepted_envelope,
}
use xx_federation_contracts.Exchange.Handler.Discovery.{bare, with_error}
use xx_federation_contracts.Exchange.Handler.Preflight.{deny, allow, Verdict}
use xx_federation_contracts.Exchange.Names.{
  decision_allow, error_gateway_unavailable, facade_get_service_catalog_view,
  facade_open_federation_transaction, facade_create_federation_room,
  facade_submit_federation_message, facade_request_builder_work, facade_submit_federation_result,
  facade_deliver_builder_work_result, facade_submit_commercial_event, facade_establish_data_channel,
}
use xx_federation_contracts.Exchange.Payload.{validate_dispatch_result}

module _ {W : Type 0} where
  -- A step that makes at most one call, of the facade with the accepted envelope.
  abbrev pub IsCalled : AcceptedEnvelope → State W → Exec (State W) GoError DispatchResult → Type 0
  IsCalled accepted s m =
      ((m s).1.calls ≡ s.calls) ⊎ ((m s).1.calls ≡ dispatched accepted ∷ s.calls)

  dispatch_data_channel-IsCalled :
      (op : Option (Fetch W AcceptedEnvelope DispatchResult)) (accepted : AcceptedEnvelope)
      (s : State W)
      → IsCalled accepted s (dispatch_data_channel op accepted)
  unfolding dispatch_data_channel
  dispatch_data_channel-IsCalled none accepted s = inl refl
  dispatch_data_channel-IsCalled (some op) accepted s = inr refl

  pub dispatch-IsCalled :
      (f : Facade W) (accepted : AcceptedEnvelope) (s : State W)
      → IsCalled accepted s (dispatch f accepted)
  unfolding dispatch
  dispatch-IsCalled f accepted s =
      let P = IsCalled accepted s in
      let method = accepted.action.facade_method in
      if-holds P (method == facade_get_service_catalog_view) (inr refl) (
        if-holds P (method == facade_open_federation_transaction) (inr refl) (
          if-holds P (method == facade_create_federation_room) (inr refl) (
            if-holds P (method == facade_submit_federation_message) (inr refl) (
              if-holds P (method == facade_request_builder_work) (inr refl) (
                if-holds P (method == facade_submit_federation_result) (inr refl) (
                  if-holds P (method == facade_deliver_builder_work_result) (inr refl) (
                    if-holds P (method == facade_submit_commercial_event) (inr refl) (
                      if-holds P (method == facade_establish_data_channel)
                        (dispatch_data_channel-IsCalled f.establish_data_channel accepted s)
                        (inl refl)))))))))

  abbrev pub IsAudited :
      List Call → PreflightDecision → Result GoError (Unit {0}) × State W → Type 0
  IsAudited calls d (ok u, t) = t.calls ≡ audited (audit_event d) ∷ calls
  IsAudited calls d (err e, t) = (t.calls ≡ calls) ⊎ (t.calls ≡ audited (audit_event d) ∷ calls)

  pub audit_lem :
      (h : Handler W) (d : PreflightDecision) (s : State W) → IsAudited s.calls d (audit h d s)
  unfolding audit
  audit_lem h d s = ground arith

module _ {W : Type 0} (h : Handler W) where
  audit_cases :
      (calls : List Call) (response : Response) (r : Result GoError (Unit {0}) × State W)
      → IsAudited calls response.decision r
      → IsLawful h calls
      → IsCoherent h.platform response
      → IsHandled h (continue r (λ _. pure response))
  unfolding pure
  audit_cases calls response (ok u, t) e lawful coherent = (rw e lawful, (coherent, rw e refl))
  audit_cases calls response (err x, t) (inl e) lawful coherent = (rw e lawful, tt)
  audit_cases calls response (err x, t) (inr e) lawful coherent = (rw e lawful, tt)

  -- An answer after the audit of its decision.
  pub audited_answer :
      (response : Response) (s : State W)
      → IsLawful h s.calls
      → IsCoherent h.platform response
      → IsHandled h ((audit h response.decision >> pure response) s)
  unfolding ◌>>◌
  audited_answer response s =
      audit_cases s.calls response (audit h response.decision s) (audit_lem h response.decision s)

module _ {W : Type 0} (h : Handler W) (session : AuthenticatedSession) (env : Envelope) where
  pub deny_late-IsHandled :
      (code : String) (text : Option String) (v : Verdict) (s : State W)
      → IsLawful h s.calls
      → IsHandled h (deny_late h session env code text v s)
  unfolding deny_late
  deny_late-IsHandled code none v s lawful =
      audited_answer h (bare (deny session env code v.manifest v.action)) s lawful
        (inr (refl, refl, tt))
  deny_late-IsHandled code (some text) v s lawful =
      audited_answer h (with_error (deny session env code v.manifest v.action) code text) s lawful
        (inr (refl, refl, refl))

  answer-IsHandled :
      (v : Verdict) (r : Result GoError DispatchResult) (s : State W)
      → IsLawful h s.calls
      → v.decision.decision ≡ decision_allow
      → last_audit s.calls ≡ some (audit_event v.decision)
      → IsHandled h (answer h session env v r s)
  unfolding answer
  answer-IsHandled v (err e) s lawful allowed last = deny_late-IsHandled _ _ v s lawful
  answer-IsHandled v (ok result) s lawful allowed last =
      elim (Bool-cases (validate_dispatch_result h.platform result)) [
        | inl good ↦ rw good (unfold pure in (lawful, (inl (allowed, refl, good), last)))
        | inr bad ↦ rw bad (deny_late-IsHandled _ _ v s lawful)
      ]

  ask_facade-IsHandled :
      (facade : Option (Facade W)) (v : Verdict) (s : State W) (calls : List Call)
      → s.calls ≡ audited (audit_event v.decision) ∷ calls
      → IsLawful h calls
      → v.decision.decision ≡ decision_allow
      → IsAuthorized h (accepted_envelope h session env v)
      → IsHandled h (ask_facade h session env facade v s)
  unfolding ask_facade ◌>>=◌
  ask_facade-IsHandled none v s calls e lawful allowed authorized =
      deny_late-IsHandled error_gateway_unavailable none v s (rw e lawful)
  ask_facade-IsHandled (some facade) v s calls e lawful allowed authorized =
      let accepted = accepted_envelope h session env v in
      elim (dispatch-IsCalled facade accepted s) [
        | inl same ↦
            answer-IsHandled v (dispatch facade accepted s).0 (dispatch facade accepted s).1
              (rw (same, e) lawful) allowed (rw (same, e) refl)
        | inr called ↦
            answer-IsHandled v (dispatch facade accepted s).0 (dispatch facade accepted s).1
              (rw (called, e) (authorized, refl, lawful)) allowed (rw (called, e) refl)
      ]

  allowed_of_decided :
      (v : Verdict)
      → v.decision ≡ allow session env v.manifest v.action
      → v.decision.decision ≡ decision_allow
  unfolding allow
  allowed_of_decided v e = ap (λ (d : PreflightDecision). d.decision) e

  -- The part after an allowed decision is audited.
  pub serve-IsHandled :
      (v : Verdict) (s : State W) (calls : List Call)
      → s.calls ≡ audited (audit_event v.decision) ∷ calls
      → IsLawful h calls
      → IsAuthorized h (accepted_envelope h session env v)
      → IsHandled h (serve h session env v s)
  unfolding serve
  serve-IsHandled v s calls e lawful authorized =
      let allowed = allowed_of_decided v authorized.decided in
      simp (test_of_eq _ _ allowed)
        (ask_facade-IsHandled h.facade v s calls e lawful allowed authorized)
