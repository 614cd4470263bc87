-- ===== src/Exchange/Handler/Serve/Lawful.antt =====
-- Every request keeps the record lawful, and every answer is coherent and audited.
use xx_federation_contracts.Base.{
  ◌≡◌, refl, ◌⊎◌, inl, inr, true, List, ◌∷◌, Option, none, some, Bool-cases, ◌∙◌,
}
use xx_federation_contracts.Base.Exec.{Result, ok, err, Exec, pure, continue, ◌>>◌, ◌>>=◌}
use xx_federation_contracts.Apperrors.{GoError}
use xx_federation_contracts.Exchange.Types.{
  Envelope, AuthenticatedSession, ActionContract, Manifest, Response, PreflightDecision,
  ReplayClaim,
}
use xx_federation_contracts.Exchange.Handler.{
  Handler, Ask, State, Call, audited, audit_event, audit,
}
use xx_federation_contracts.Exchange.Handler.Preflight.{Denial, decide, replay_claim}
use xx_federation_contracts.Exchange.Handler.Preflight.Gates.{IsContracted}
use xx_federation_contracts.Exchange.Handler.Preflight.Sound.{IsRefused, claim_calls}
use xx_federation_contracts.Exchange.Handler.Preflight.Admission.{
  IsAdmitted, preflight-Strict, preflight_manifest_independent-Free, Free, Strict,
}
use xx_federation_contracts.Exchange.Handler.Serve.{
  is_free_catalog_view, is_free_data_channel, catalog_view_action, data_channel_action,
  select_preflight, handle_exchange, serve,
}
use xx_federation_contracts.Exchange.Handler.Serve.Invariant.{IsLawful, IsHandled, IsFree}
use xx_federation_contracts.Exchange.Handler.Serve.Steps.{
  IsAudited, audit_lem, serve-IsHandled, audited_answer,
}
use xx_federation_contracts.Exchange.Handler.Discovery.{bare, kept}

module _ {W : Type 0} (h : Handler W) where
  audit_then_cases :
      (calls : List Call) (d : PreflightDecision) (k : Exec (State W) GoError Response)
      (r : Result GoError (Unit {0}) × State W)
      → IsAudited calls d r
      → IsLawful h calls
      → ((t : State W) → t.calls ≡ audited (audit_event d) ∷ calls → IsHandled h (k t))
      → IsHandled h (continue r (λ _. k))
  audit_then_cases calls d k (ok u, t) e lawful rest = rest t e
  audit_then_cases calls d k (err x, t) (inl e) lawful rest = (rw e lawful, tt)
  audit_then_cases calls d k (err x, t) (inr e) lawful rest = (rw e lawful, tt)

  -- An audit and what follows where the sink accepts it.
  pub audit_then :
      (d : PreflightDecision) (k : Exec (State W) GoError Response) (s : State W)
      → IsLawful h s.calls
      → ((t : State W) → t.calls ≡ audited (audit_event d) ∷ s.calls → IsHandled h (k t))
      → IsHandled h ((audit h d >> k) s)
  unfolding ◌>>◌
  audit_then d k s = audit_then_cases s.calls d k (audit h d s) (audit_lem h d s)

  pub claim_calls-IsLawful :
      (replay : Option (Ask W ReplayClaim)) (c : ReplayClaim) (calls : List Call)
      → IsLawful h calls
      → IsLawful h (claim_calls replay c calls)
  claim_calls-IsLawful none c calls lawful = lawful
  claim_calls-IsLawful (some op) c calls lawful = lawful

  IsRefused-IsLawful :
      (env : Envelope) (calls : List Call) (d : Denial) (t : State W)
      → IsRefused env calls d t
      → IsLawful h calls
      → IsLawful h t.calls
  IsRefused-IsLawful env calls d t (inl e) lawful = rw e lawful
  IsRefused-IsLawful env calls d t (inr (c, e)) lawful = rw e lawful

module _ {W : Type 0} (h : Handler W) (session : AuthenticatedSession) (env : Envelope) where
  abbrev Selected : List Call → Result Denial (Manifest × ActionContract) × State W → Type 0
  Selected calls (ok (m, a), t) =
      IsAdmitted h session env
      × (IsContracted h session env m a ⊎ IsFree h env m a)
      × (t.calls ≡ claim_calls h.replay (replay_claim env) calls)
  Selected calls (err d, t) = IsRefused env calls d t

  of_Strict :
      (calls : List Call) (r : Result Denial (Manifest × ActionContract) × State W)
      → Strict h session env calls r
      → Selected calls r
  of_Strict calls (ok (m, a), t) (admitted, contracted, e) = (admitted, inl contracted, e)
  of_Strict calls (err d, t) refused = refused

  of_Free :
      (calls : List Call) (action : ActionContract)
      (r : Result Denial (Manifest × ActionContract) × State W)
      → ((is_free_catalog_view env ≡ true) × (action ≡ catalog_view_action)
          ⊎ (is_free_data_channel env ≡ true) × (action ≡ data_channel_action))
      → Free h session env calls action r
      → Selected calls r
  of_Free calls action (ok (m, a), t) (inl (b, e)) (admitted, em, ea, ec) =
      (admitted, inr (em, inl (b, ea ∙ e)), ec)
  of_Free calls action (ok (m, a), t) (inr (b, e)) (admitted, em, ea, ec) =
      (admitted, inr (em, inr (b, ea ∙ e)), ec)
  of_Free calls action (err d, t) which refused = refused

  select_lem : (s : State W) → Selected s.calls (select_preflight h session env s)
  unfolding select_preflight
  select_lem s = elim (Bool-cases (is_free_catalog_view env)) [
    | inl view ↦ rw view (
        of_Free _ _ _ (inl (view, refl))
          (preflight_manifest_independent-Free h session env catalog_view_action s))
    | inr other ↦ elim (Bool-cases (is_free_data_channel env)) [
      | inl channel ↦
          rw (other, channel)
            (of_Free _ _ _ (inr (channel, refl))
              (preflight_manifest_independent-Free h session env data_channel_action s))
      | inr rest ↦ rw (other, rest) (of_Strict _ _ (preflight-Strict h session env s))
    ]
  ]

  exchange_cases :
      (calls : List Call) (r : Result Denial (Manifest × ActionContract) × State W)
      → Selected calls r
      → IsLawful h calls
      → IsHandled h (
          continue (kept r) (λ outcome.
            audit h (decide session env outcome).decision
            >> serve h session env (decide session env outcome)))
  unfolding decide serve pure
  exchange_cases calls (ok (m, a), t) (admitted, routed, e) lawful =
      let lawful' : IsLawful h t.calls =
        rw e (claim_calls-IsLawful h h.replay (replay_claim env) calls lawful) in
      audit_then h _ _ t lawful' (λ u e'.
        serve-IsHandled h session env (decide session env (ok (m, a))) u t.calls e' lawful'
          (record { admitted = admitted; routed = routed; decided = refl }))
  exchange_cases calls (err d, t) refused lawful =
      audited_answer h (bare (decide session env (err d)).decision) t
        (IsRefused-IsLawful h env calls d t refused lawful) (inr (refl, refl, tt))

  pub handle_exchange-IsHandled :
      (s : State W) → IsLawful h s.calls → IsHandled h (handle_exchange h session env s)
  unfolding handle_exchange ◌>>=◌
  handle_exchange-IsHandled s lawful =
      exchange_cases s.calls (select_preflight h session env s) (select_lem s) lawful
