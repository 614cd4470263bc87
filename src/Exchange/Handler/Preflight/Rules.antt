-- ===== src/Exchange/Handler/Preflight/Rules.antt =====
-- Rules for the steps of a preflight: what a step that returns has established, and that the steps
-- other than the replay claim leave the record of calls alone.
use xx_federation_contracts.Base.{◌≡◌, refl, ◌∙◌, List, Option, none, some, arith}
use xx_federation_contracts.Base.Int.{ℤ}
use xx_federation_contracts.Base.Exec.{Result, ok, err, Exec, continue, ◌>>=◌, ◌>>◌}
use xx_federation_contracts.Apperrors.{GoError}
use xx_federation_contracts.Exchange.Types.{Envelope, ActionContract, PolicyCheck, ContractRef}
use xx_federation_contracts.Exchange.Handler.{
  Handler, Call, State, to_result, resolve_manifest, validate_contract_payload,
  authorize_contract_approval, authorize_policy, now,
}
use xx_federation_contracts.Exchange.Handler.Preflight.{or_deny, replace_error}

module _ {W : Type 0} where
  abbrev pub KeepsCalls : {E A : Type 0} → Exec (State W) E A → Type 0
  KeepsCalls m = (s : State W) → (m s).1.calls ≡ s.calls

  to_result-calls :
      (r : Option GoError × W) (calls : List Call) → (to_result r calls).1.calls ≡ calls
  to_result-calls (none, w) calls = refl
  to_result-calls (some e, w) calls = refl

  pub resolve_manifest-KeepsCalls :
      (h : Handler W) (ref : ContractRef) → KeepsCalls (resolve_manifest h ref)
  unfolding resolve_manifest
  resolve_manifest-KeepsCalls h ref s = ground arith

  pub validate_contract_payload-KeepsCalls :
      (h : Handler W) (env : Envelope) (action : ActionContract)
      → KeepsCalls (validate_contract_payload h env action)
  unfolding validate_contract_payload
  validate_contract_payload-KeepsCalls h env action s = ground arith

  pub authorize_contract_approval-KeepsCalls :
      (h : Handler W) (check : PolicyCheck) → KeepsCalls (authorize_contract_approval h check)
  unfolding authorize_contract_approval
  authorize_contract_approval-KeepsCalls h check s = ground arith

  pub authorize_policy-KeepsCalls :
      (h : Handler W) (check : PolicyCheck) → KeepsCalls (authorize_policy h check)
  unfolding authorize_policy
  authorize_policy-KeepsCalls h check s = ground arith

module _ {W E D A B : Type 0} (Q : Result D B × State W → Type 0) where
  deny_cases :
      (r : Result E A × State W) (d : D) (f : A → Exec (State W) D B)
      → ((a : A) → r.0 ≡ ok a → Q (f a r.1))
      → Q (err d, r.1)
      → Q (continue (replace_error r d) f)
  deny_cases (ok a, t) d f returned failed = returned a refl
  deny_cases (err x, t) d f returned failed = failed

module _ {W E D A B : Type 0} (Q : Result D B × State W → Type 0) {calls : List Call}
    (m : Exec (State W) E A) (d : D) (f : A → Exec (State W) D B) (s : State W) where
  -- A collaborator's step with its early return.
  pub after-deny :
      KeepsCalls m
      → s.calls ≡ calls
      → ((a : A) (t : State W) → (m s).0 ≡ ok a → t.calls ≡ calls → Q (f a t))
      → ((t : State W) → t.calls ≡ calls → Q (err d, t))
      → Q ((or_deny m d >>= f) s)
  unfolding ◌>>=◌ or_deny
  after-deny keeps same returned failed =
      deny_cases Q (m s) d f (λ a e. returned a (m s).1 e (keeps s ∙ same))
        (failed (m s).1 (keeps s ∙ same))

module _ {W E D B : Type 0} (Q : Result D B × State W → Type 0) {calls : List Call}
    (m : Exec (State W) E (Unit {0})) (d : D) (k : Exec (State W) D B) (s : State W) where
  -- The same where the step returns nothing.
  pub after-check :
      KeepsCalls m
      → s.calls ≡ calls
      → ((t : State W) → (m s).0 ≡ ok tt → t.calls ≡ calls → Q (k t))
      → ((t : State W) → t.calls ≡ calls → Q (err d, t))
      → Q ((or_deny m d >> k) s)
  unfolding ◌>>◌
  after-check keeps same returned failed =
      after-deny Q m d (λ _. k) s keeps same (λ _ t e c. returned t e c) failed

module _ {W D B : Type 0} (Q : Result D B × State W → Type 0) {calls : List Call} (h : Handler W)
    (f : ℤ → Exec (State W) D B) (s : State W) where
  -- A reading of the clock.
  pub after-now :
      s.calls ≡ calls
      → ((w : W) (t : State W) → t.calls ≡ calls → Q (f (h.now_ms w).0 t))
      → Q ((now h >>= f) s)
  unfolding ◌>>=◌ now
  after-now same returned = returned s.world (record s { world = (h.now_ms s.world).1 }) same
