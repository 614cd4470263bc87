-- ===== src/Exchange/Replay/Claimed.antt =====
-- `MemoryReplayCache` against the claims that it has accepted.
use Prim.Native.String.{◌++◌}
use text.Mathlib.TextLemmas.{append_cancel_left, cons-append, head-eq_of_cons-eq}
use Prim.Native.Char.{code}
use xx_federation_contracts.Base.{
  String, ◌≡◌, refl, sym, ap, test_of_ne, ◌∙◌, Bool, false, not, ◌&&◌, ◌||◌, List, [], ◌∷◌, none,
  some, ◌==◌, any, if◌then◌else◌, arith, eq_iff, Bool-cases, inl, inr, ◌≢◌,
}
use xx_federation_contracts.Base.Int.{ℤ}
use xx_federation_contracts.Base.Maps.{Map, insert, lookup, contains, lookup-insert}
use xx_federation_contracts.Base.Text.{trim_space}
use xx_federation_contracts.Exchange.Types.{ReplayClaim}
use xx_federation_contracts.Exchange.Replay.{
  MemoryReplayCache, new, replay_detected, claim_keys, mark, claim,
}

-- Two claims with one envelope id, or with one idempotency key that is not empty.
abbrev pub share : ReplayClaim → ReplayClaim → Bool
share a b =
    trim_space b.envelope_id == trim_space a.envelope_id
    || not (trim_space a.idempotency_key == "")
      && trim_space b.idempotency_key == trim_space a.idempotency_key

-- The specification: of a history, the last claim first, the claims that shared nothing with an
-- accepted one before.
pub accepted_of : List ReplayClaim → List ReplayClaim
accepted_of [] = []
accepted_of (c ∷ older) =
    let rest = accepted_of older in if any (share c) rest then rest else c ∷ rest

-- The cache after a history.
pub after : List ReplayClaim → MemoryReplayCache
after [] = new
after (c ∷ older) = (claim c (after older)).1

same_prefix : (p s t : String) → ((p ++ s) == (p ++ t)) ≡ (s == t)
same_prefix p s t = ground (
  arith,
  eq_iff (p ++ s) (p ++ t),
  eq_iff s t,
  append_cancel_left p s t,
  ap (λ (u : String). p ++ u),
)

env_ne_idem : (s t : String) → "env:" ++ s ≢ "idem:" ++ t
env_ne_idem s t e =
    let heads = sym (cons-append "e" "nv:" s) ∙ e ∙ cons-append "i" "dem:" t in
    absurd (omega (arith, ap code (head-eq_of_cons-eq heads)))

other_prefix :
    (s t : String)
    → ((("env:" ++ s) == ("idem:" ++ t)) ≡ false) × ((("idem:" ++ t) == ("env:" ++ s)) ≡ false)
other_prefix s t = (test_of_ne _ _ (env_ne_idem s t), test_of_ne _ _ (λ e. env_ne_idem s t (sym e)))

contains-insert :
    (k j : String) (e : ℤ) (seen : Map ℤ)
    → contains j (insert k e seen) ≡ (k == j || contains j seen)
contains-insert k j e seen = rw (lookup-insert k j e seen) (ground arith)

contains-mark :
    (j : String) (keys : List String) (e : ℤ) (seen : Map ℤ)
    → contains j (mark keys e seen) ≡ (any (λ k. k == j) keys || contains j seen)
unfolding mark
contains-mark j [] e seen = refl
contains-mark j (k ∷ keys) e seen =
    ground (arith, contains-mark j keys e (insert k e seen), contains-insert k j e seen)

-- A claim hits a cache if one of its keys is there.
abbrev hits : ReplayClaim → Map ℤ → Bool
hits c seen = any (λ key. contains key seen) (claim_keys c)

-- Marking the keys of `b` adds a hit for `a` exactly if the two share an id.
hits-mark :
    (a b : ReplayClaim) (e : ℤ) (seen : Map ℤ)
    → hits a (mark (claim_keys b) e seen) ≡ (share a b || hits a seen)
unfolding claim_keys
hits-mark a b e seen =
    let a1 = trim_space a.envelope_id in
    let a2 = trim_space a.idempotency_key in
    let b1 = trim_space b.envelope_id in
    let b2 = trim_space b.idempotency_key in
    ground (
      arith,
      contains-mark ("env:" ++ a1) (claim_keys b) e seen,
      contains-mark ("idem:" ++ a2) (claim_keys b) e seen,
      same_prefix "env:" b1 a1,
      same_prefix "idem:" b2 a2,
      (other_prefix b1 a2).0,
      (other_prefix a1 b2).1,
      eq_iff b2 a2,
      eq_iff a2 "",
      eq_iff b2 "",
    )

hits-claim :
    (a b : ReplayClaim) (cache : MemoryReplayCache)
    → hits a (claim b cache).1.seen
      ≡ (if hits b cache.seen then hits a cache.seen else share a b || hits a cache.seen)
unfolding claim
hits-claim a b cache = elim (Bool-cases (hits b cache.seen)) [
  | inl hit ↦ rw hit
  | inr missed ↦ rw missed (hits-mark a b b.expires_at_ms cache.seen)
]

hits-new : (c : ReplayClaim) → hits c new.seen ≡ false
unfolding claim_keys new lookup
hits-new c = ground arith

-- The cache after a history is hit by the claims that share an id with an accepted one.
hits-after :
    (older : List ReplayClaim) (c : ReplayClaim)
    → hits c (after older).seen ≡ any (share c) (accepted_of older)
unfolding after accepted_of
hits-after [] c = hits-new c
hits-after (b ∷ older) c =
    hits-claim c b (after older) ∙ ground (arith, hits-after older b, hits-after older c)

-- After any history of claims, a claim is refused exactly if it shares its envelope id, or an
-- idempotency key that is not empty, with a claim that was accepted before.
pub claim-after :
    (older : List ReplayClaim) (c : ReplayClaim)
    → (claim c (after older)).0
      ≡ (if any (share c) (accepted_of older) then some replay_detected else none)
unfolding claim
claim-after older c = ground (arith, hits-after older c)
