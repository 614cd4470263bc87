-- ===== src/Exchange/Handler/Preflight/Sound.antt =====
-- A preflight that returns has passed all its gates, and a preflight that refuses has made no replay
-- claim, or only the one that failed.
use xx_federation_contracts.Base.{
  ◌≡◌, refl, ◌⊎◌, inl, inr, Bool, true, false, not, List, ◌∷◌, Option, none, some, arith,
}
use xx_federation_contracts.Base.Exec.{Result, ok, err, require, pure, continue, Exec, ◌>>◌}
use xx_federation_contracts.Apperrors.{GoError}
use xx_federation_contracts.Exchange.Names.{error_replay_detected}
use xx_federation_contracts.Exchange.Types.{Envelope, ActionContract, Manifest, ReplayClaim}
use xx_federation_contracts.Exchange.Handler.{Ask, State, Call, claimed, claim_replay}
use xx_federation_contracts.Exchange.Handler.Preflight.{
  Denial, replace_error, or_deny, claim_step, claim_if_present, needs_key, replay_claim,
}
use xx_federation_contracts.Exchange.Handler.Preflight.Gates.{IsClaimed}

module _ {W : Type 0} where
  -- The record of calls after a claim, if there is a cache.
  abbrev pub claim_calls : Option (Ask W ReplayClaim) → ReplayClaim → List Call → List Call
  claim_calls none c calls = calls
  claim_calls (some op) c calls = claimed c ∷ calls

module _ {W : Type 0} (env : Envelope) (calls : List Call) where
  -- What a refusal has written.
  abbrev pub IsRefused : Denial → State W → Type 0
  IsRefused d t =
      (t.calls ≡ calls)
      ⊎ ((d.code ≡ error_replay_detected) × (t.calls ≡ claimed (replay_claim env) ∷ calls))

  -- What a claim that returns has established.
  abbrev pub ClaimStep :
      Option (Ask W ReplayClaim) → Bool → Result Denial (Unit {0}) × State W → Type 0
  ClaimStep replay needed (ok u, t) =
      IsClaimed env replay
      × (needed ≡ true → (op : Ask W ReplayClaim) × (replay ≡ some op))
      × (t.calls ≡ claim_calls replay (replay_claim env) calls)
  ClaimStep replay needed (err d, t) = IsRefused d t

pub claim_replay-calls :
    {W : Type 0} (op : Ask W ReplayClaim) (c : ReplayClaim) (s : State W)
    → (claim_replay op c s).1.calls ≡ claimed c ∷ s.calls
unfolding claim_replay
claim_replay-calls op c s = ground arith

module _ {W : Type 0} (env : Envelope) {calls : List Call} (s : State W)
    (same : s.calls ≡ calls) where
  with_cache :
      (op : Ask W ReplayClaim) (d : Denial) (needed : Bool)
      → d.code ≡ error_replay_detected
      → (r : Result GoError (Unit {0}) × State W) → claim_replay op (replay_claim env) s ≡ r
      → ClaimStep env calls (some op) needed (replace_error r d)
  with_cache op d needed code (ok u, t) e = (
    λ op' there. (s, ground arith),
    λ _. (op, refl),
    ground (arith, claim_replay-calls op (replay_claim env) s),
  )
  with_cache op d needed code (err x, t) e =
      inr (code, ground (arith, claim_replay-calls op (replay_claim env) s))

  without_cache :
      (needed : Bool) (d : Denial) → ClaimStep env calls none needed (require (not needed) d s)
  unfolding require
  without_cache true d = inl same
  without_cache false d = (λ op there. cc, λ k. cc, same)

  pub claim_step_lem :
      (replay : Option (Ask W ReplayClaim)) (manifest : Manifest) (action : ActionContract)
      → ClaimStep env calls replay (needs_key action) (claim_step env replay manifest action s)
  unfolding claim_step or_deny
  claim_step_lem none manifest action = without_cache (needs_key action) _
  claim_step_lem (some op) manifest action = with_cache op _ _ refl _ refl

  pub claim_if_present_lem :
      (replay : Option (Ask W ReplayClaim)) (action : ActionContract)
      → ClaimStep env calls replay false (claim_if_present env replay action s)
  unfolding claim_if_present or_deny pure
  claim_if_present_lem none action = (λ op there. cc, λ k. cc, same)
  claim_if_present_lem (some op) action = with_cache op _ _ refl _ refl

module _ {W B : Type 0} (env : Envelope) {calls : List Call} {replay : Option (Ask W ReplayClaim)}
    {needed : Bool} (Q : Result Denial B × State W → Type 0) (b : B) where
  claim_cases :
      (r : Result Denial (Unit {0}) × State W)
      → ClaimStep env calls replay needed r
      → ((t : State W) → ClaimStep env calls replay needed (ok tt, t) → Q (ok b, t))
      → ((d : Denial) (t : State W) → IsRefused env calls d t → Q (err d, t))
      → Q (continue r (λ _. pure b))
  unfolding pure
  claim_cases (ok u, t) step passed refused = passed t step
  claim_cases (err d, t) step passed refused = refused d t step

  -- A claim and the return after it.
  pub after-claim :
      (m : Exec (State W) Denial (Unit {0})) (s : State W)
      → ClaimStep env calls replay needed (m s)
      → ((t : State W) → ClaimStep env calls replay needed (ok tt, t) → Q (ok b, t))
      → ((d : Denial) (t : State W) → IsRefused env calls d t → Q (err d, t))
      → Q ((m >> pure b) s)
  unfolding ◌>>◌
  after-claim m s = claim_cases (m s)
