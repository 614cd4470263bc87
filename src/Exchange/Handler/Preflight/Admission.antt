-- ===== src/Exchange/Handler/Preflight/Admission.antt =====
-- A preflight that returns has passed all its gates; one that refuses has made no replay claim, or
-- only the one that was refused.
use xx_federation_contracts.Base.{
  ◌≡◌, ◌==◌, not, refl, inl, List, eq_of_test, not-true, nor-true, ne_of_excluded,
}
use xx_federation_contracts.Base.Exec.{Result, Exec, ok, err, require, ◌>>◌, after-require}
use xx_federation_contracts.Exchange.Names.{schema_gateway_exchange_v1, partner_link_active}
use xx_federation_contracts.Exchange.Session.{session_matches_envelope}
use xx_federation_contracts.Exchange.Types.{
  Envelope, AuthenticatedSession, ActionContract, Manifest, empty_manifest,
}
use xx_federation_contracts.Exchange.Handler.{Handler, State, Call}
use xx_federation_contracts.Exchange.Handler.Preflight.{
  Denial, preflight, preflight_manifest_independent, replay_claim,
}
use xx_federation_contracts.Exchange.Handler.Preflight.Gates.{
  IsOpen, IsFresh, IsClaimed, IsContracted,
}
use xx_federation_contracts.Exchange.Handler.Preflight.Rules.{
  after-deny, after-check, after-now, resolve_manifest-KeepsCalls,
  validate_contract_payload-KeepsCalls, authorize_contract_approval-KeepsCalls,
  authorize_policy-KeepsCalls,
}
use xx_federation_contracts.Exchange.Handler.Preflight.Sound.{
  claim_calls, IsRefused, claim_step_lem, claim_if_present_lem, after-claim,
}

module _ {W : Type 0} (h : Handler W) (session : AuthenticatedSession) (env : Envelope) where
  -- The gates of both preflights.
  pub record IsAdmitted : Type 0 where
    pub opened : IsOpen session env
    pub fresh : IsFresh h env
    pub claimed : IsClaimed env h.replay

  module _ (calls : List Call) where
    -- What `preflight` establishes, by its outcome.
    abbrev pub Strict : Result Denial (Manifest × ActionContract) × State W → Type 0
    Strict (ok (m, a), t) =
        IsAdmitted
        × IsContracted h session env m a
        × (t.calls ≡ claim_calls h.replay (replay_claim env) calls)
    Strict (err d, t) = IsRefused env calls d t

    -- What `preflight_manifest_independent` establishes for an action.
    abbrev pub Free : ActionContract → Result Denial (Manifest × ActionContract) × State W → Type 0
    Free action (ok (m, a), t) =
        IsAdmitted
        × (m ≡ empty_manifest)
        × (a ≡ action)
        × (t.calls ≡ claim_calls h.replay (replay_claim env) calls)
    Free action (err d, t) = IsRefused env calls d t

  -- The four guards on the session and the envelope, with which every preflight begins.
  after-opening :
      {A : Type 0} (Q : Result Denial A × State W → Type 0) (a b c d : Denial)
      (k : Exec (State W) Denial A) (s : State W)
      → (IsOpen session env → Q (k s))
      → ((e : Denial) → Q (err e, s))
      → Q (
          (require (env.schema_version == schema_gateway_exchange_v1) a
              >> (require (session_matches_envelope session env) b
                  >> (require (not session.kill_switch_enabled) c
                      >> (require (session.partner_link_state == partner_link_active) d >> k))))
            s)
  after-opening Q a b c d k s opened stopped =
      after-require Q _ a _ s
        (λ schema.
          after-require Q _ b _ s
            (λ matched.
              after-require Q _ c _ s
                (λ alive.
                  after-require Q _ d _ s
                    (λ linked. opened (record {
                      schema = eq_of_test _ _ schema;
                      matched = matched;
                      alive = not-true _ alive;
                      linked = eq_of_test _ _ linked;
                    }))
                    (λ _. stopped d))
                (λ _. stopped c))
            (λ _. stopped b))
        (λ _. stopped a)

  -- A strict preflight that allows an envelope has passed every gate: those on the session, the
  -- envelope's expiry, the accepted replay claim where there is a replay cache, and those that the
  -- resolved manifest adds; the claim is the only call that it has recorded. One that denies has
  -- recorded no call, or the one claim, and then its code is that of a detected replay.
  pub preflight-Strict : (s : State W) → Strict s.calls (preflight h session env s)
  unfolding preflight
  preflight-Strict s =
      let Q = Strict s.calls in
      after-opening Q _ _ _ _ _ s
        (λ opened.
          after-deny Q _ _ _ s (resolve_manifest-KeepsCalls h _) refl
            (λ manifest s1 resolved c1.
              after-require Q _ _ _ s1
                (λ admitted.
                  after-check Q _ _ _ s1 (authorize_contract_approval-KeepsCalls h _) c1
                    (λ s2 approved c2. after-now Q h _ s2 c2 (λ w s3 c3.
                      after-require Q _ _ _ s3
                        (λ fresh.
                          after-require Q _ _ _ s3
                            (λ keyed.
                              after-require Q _ _ _ s3
                                (λ payload.
                                  after-check Q _ _ _ s3
                                    (validate_contract_payload-KeepsCalls h env _) c3
                                    (λ s4 validated c4.
                                      after-check Q _ _ _ s4 (authorize_policy-KeepsCalls h _) c4
                                        (λ s5 permitted c5.
                                          after-claim env Q _ _ s5
                                            (claim_step_lem env s5 c5 h.replay manifest _)
                                            (λ t claim. (
                                              record {
                                                opened = opened;
                                                fresh = (w, (nor-true _ _ fresh).0);
                                                claimed = claim.0;
                                              },
                                              record {
                                                resolved = (s, resolved);
                                                found = refl;
                                                admitted = admitted;
                                                approved = (s1, approved);
                                                current = (w, (nor-true _ _ fresh).1);
                                                keyed = ne_of_excluded _ _ keyed;
                                                payload = payload;
                                                validated = (s3, validated);
                                                permitted = (s4, permitted);
                                                cached = claim.1;
                                              },
                                              claim.2,
                                            ))
                                            (λ d t r. r))
                                        (λ t c. inl c))
                                    (λ t c. inl c))
                                (λ _. inl c3))
                            (λ _. inl c3))
                        (λ _. inl c3)))
                    (λ t c. inl c))
                (λ _. inl c1))
            (λ t c. inl c))
        (λ d. inl refl)

  -- A manifest-independent preflight that allows an envelope has passed the gates on the session, the
  -- envelope's expiry and the accepted replay claim where there is a replay cache, and yields the
  -- zero manifest and the given action; the claim is the only call that it has recorded. One that
  -- denies has recorded no call, or the one claim, and then its code is that of a detected replay.
  pub preflight_manifest_independent-Free :
      (action : ActionContract) (s : State W)
      → Free s.calls action (preflight_manifest_independent h session env action s)
  unfolding preflight_manifest_independent
  preflight_manifest_independent-Free action s =
      let Q = Free s.calls action in
      after-opening Q _ _ _ _ _ s
        (λ opened. after-now Q h _ s refl (λ w s1 c1.
          after-require Q _ _ _ s1
            (λ fresh.
              after-claim env Q _ _ s1 (claim_if_present_lem env s1 c1 h.replay action)
                (λ t claim. (
                  record { opened = opened; fresh = (w, not-true _ fresh); claimed = claim.0 },
                  refl,
                  refl,
                  claim.2,
                ))
                (λ d t r. r))
            (λ _. inl c1)))
        (λ d. inl refl)
