-- ===== src/ServiceAccessCap/Challenged.antt =====
-- serviceaccesscap/capability.go: what the message of a request's challenge binds.
use mathlib.Core.List.{append-nil}
use xx_federation_contracts.Base.{◌<◌, ◌≡◌, refl, sym, ◌∙◌, String, [], length}
use xx_federation_contracts.Base.Bytes.{Bytes}
use xx_federation_contracts.Base.Frames.{capacity, frame, frame-inj, split_append}
use xx_federation_contracts.ServiceAccessCap.Types.{AccessCodec}
use xx_federation_contracts.ServiceAccessCap.Capability.{pop_domain, pop_message, prefix_width}

module _ (codec : AccessCodec)
    (utf8-inj : (s t : String) → codec.utf8 s ≡ codec.utf8 t → s ≡ t) where
  open codec use {utf8}

  -- The fields are shorter than the 2^32 that a length field holds.
  abbrev pub IsShort : String → Bytes → String → Type 0
  IsShort resource key nonce =
      (length (utf8 resource) < capacity prefix_width)
      × (length key < capacity prefix_width)
      × (length (utf8 nonce) < capacity prefix_width)

  -- Two challenges hash one message only for one resource, one key and one nonce: no text with a
  -- separator in it can shift one field into another. Each field is shorter than 2^32 bytes.
  pub pop_message-inj :
      (resource resource2 : String) (key key2 : Bytes) (nonce nonce2 : String)
      → IsShort resource key nonce
      → IsShort resource2 key2 nonce2
      → pop_message codec resource key nonce ≡ pop_message codec resource2 key2 nonce2
      → (resource ≡ resource2) × (key ≡ key2) × (nonce ≡ nonce2)
  unfolding pop_message
  pop_message-inj resource resource2 key key2 nonce nonce2 (a, b, c) (d, e, f) h =
      let domain = frame prefix_width (utf8 pop_domain) in
      let same = (split_append domain domain _ _ refl h).1 in
      let (resources, more) =
        frame-inj prefix_width (utf8 resource) (utf8 resource2) _ _ a d same in
      let (keys, rest) = frame-inj prefix_width key key2 _ _ b e more in
      let (nonces, _) = frame-inj prefix_width (utf8 nonce) (utf8 nonce2) [] [] c f (
        append-nil (frame prefix_width (utf8 nonce))
        ∙ rest
        ∙ sym (append-nil (frame prefix_width (utf8 nonce2)))) in
      (utf8-inj resource resource2 resources, keys, utf8-inj nonce nonce2 nonces)
