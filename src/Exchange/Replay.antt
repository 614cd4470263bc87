-- ===== src/Exchange/Replay.antt =====
-- contracts/exchange/exchange.go: `MemoryReplayCache`. Its mutex makes a claim one step; the entries
-- are never removed.
pub mod Claimed
use Prim.Native.String.{◌++◌}
use xx_federation_contracts.Base.{
  String, Bool, true, false, not, List, [], ◌∷◌, Option, none, some, ◌==◌, any, if◌then◌else◌,
}
use xx_federation_contracts.Base.Int.{ℤ}
use xx_federation_contracts.Base.Maps.{Map, insert, contains}
use xx_federation_contracts.Base.Text.{trim_space}
use xx_federation_contracts.Apperrors.{GoError, plain}
use xx_federation_contracts.Exchange.Names.{error_replay_detected}
use xx_federation_contracts.Exchange.Types.{ReplayClaim}

pub record MemoryReplayCache : Type 0 where
  pub seen : Map ℤ

-- `NewMemoryReplayCache`
unfoldable pub new : MemoryReplayCache
new = record { seen = [] }

-- `ErrReplayDetected`
abbrev pub replay_detected : GoError
replay_detected = plain error_replay_detected

unfoldable pub claim_keys : ReplayClaim → List String
claim_keys claim =
    ("env:" ++ trim_space claim.envelope_id)
    ∷ (if trim_space claim.idempotency_key == ""
        then []
        else ("idem:" ++ trim_space claim.idempotency_key) ∷ [])

-- `for _, key := range keys { c.seen[key] = … }`
unfoldable pub mark : List String → ℤ → Map ℤ → Map ℤ
mark [] expires seen = seen
mark (key ∷ keys) expires seen = mark keys expires (insert key expires seen)

-- `Claim`
unfoldable pub claim : ReplayClaim → MemoryReplayCache → Option GoError × MemoryReplayCache
claim c cache =
    if any (λ key. contains key cache.seen) (claim_keys c)
    then (some replay_detected, cache)
    else (none, record { seen = mark (claim_keys c) c.expires_at_ms cache.seen })
