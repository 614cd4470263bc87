-- ===== src/ServiceAccessCap/Signed.antt =====
-- serviceaccesscap: what verifies, what is signed verifies, and what a capability grants.
use xx_federation_contracts.Base.{
  ◌≡◌, refl, ap, sym, ◌∙◌, ◌↔◌, String, true, false, ◌&&◌, ◌||◌, [], ◌∷◌, Option, none, some,
  is_empty, arith, ◌==◌,
}
use xx_federation_contracts.Base.Text.{filled}
use xx_federation_contracts.Base.Int.{ℤ, pos, leb_ℤ, is_nonpositive, ◌<ℤ◌}
use xx_federation_contracts.Base.Maps.{Map, lookup}
use xx_federation_contracts.Base.Bytes.{Bytes, same_bytes, same_iff}
use xx_federation_contracts.Base.Ed25519.{
  Ed25519, IsKeyPair, has_size, public_key_size, signature_size,
}
use xx_federation_contracts.Base.Exec.{ok}
use xx_federation_contracts.ServiceAccessCap.Types.{
  AccessCapability, RevocationTombstone, AccessCodec,
}
use xx_federation_contracts.ServiceAccessCap.Resource.{parse_resource, is_resource}
use xx_federation_contracts.ServiceAccessCap.Capability.{
  binds_public_key, authorizes_resource, access_bytes, stamp_access, sign_access, verify_access,
  verify_access_by,
}
use xx_federation_contracts.ServiceAccessCap.Tombstone.{
  tombstone_bytes, stamp_tombstone, sign_tombstone, verify_tombstone, verify_tombstone_by,
}

-- A keyring in which a name is found is not empty.
nonempty :
    (key : String) (public_key : Bytes) (trusted : Map Bytes)
    → lookup key trusted ≡ some public_key
    → is_empty trusted ≡ false
unfolding lookup
nonempty key public_key [] h = ground arith
nonempty key public_key (entry ∷ rest) h = refl

-- A capability binds a key and authorizes a namespace exactly if they are its own subject key, of the
-- right size, and its own resource, not empty.
pub grants_iff :
    (codec : AccessCodec)
    → ((s t : String) → codec.utf8 s ≡ codec.utf8 t → s ≡ t)
    → (c : AccessCapability) (public_key : Bytes) (namespace : String)
    → ((binds_public_key c public_key && authorizes_resource codec c namespace) ≡ true) ↔ (
        (has_size public_key public_key_size ≡ true)
        × (c.subject_public_key ≡ public_key)
        × (filled namespace ≡ true)
        × (c.resource ≡ namespace))
unfolding binds_public_key authorizes_resource
grants_iff codec utf8-inj c public_key namespace = (
  λ h. (
    ground arith,
    (same_iff _ _).0 (ground arith),
    ground arith,
    utf8-inj _ _ ((same_iff _ _).0 (ground arith)),
  ),
  λ (sized, key, full, resource).
      let own : has_size c.subject_public_key public_key_size ≡ true =
        ap (λ k. has_size k public_key_size) key ∙ sized in
      let full2 : (c.resource == "") ≡ false = ap (λ s. s == "") resource ∙ ground arith in
      let same : same_bytes (codec.utf8 c.resource) (codec.utf8 namespace) ≡ true =
        (same_iff _ _).1 (ap codec.utf8 resource) in
      ground (arith, own, full2, same, (same_iff c.subject_public_key public_key).1 key),
)

module _ (codec : AccessCodec) (ed : Ed25519) where
  -- A capability that verifies at a time.
  abbrev pub IsAccess : AccessCapability → Map Bytes → ℤ → Type 0
  IsAccess c trusted now_ms =
      (public_key : Bytes) × (lookup c.issuer trusted ≡ some public_key)
      × (has_size public_key public_key_size ≡ true)
      × (has_size c.subject_public_key public_key_size ≡ true)
      × (is_resource (parse_resource c.resource) ≡ true)
      × (pos 0 <ℤ c.expires_at_ms)
      × (now_ms <ℤ c.expires_at_ms)
      × (has_size c.signature signature_size ≡ true)
      × (ed.verify public_key (access_bytes codec c) c.signature ≡ true)

  verify_access_by_sound :
      (found : Option Bytes) (c : AccessCapability) (trusted : Map Bytes) (now_ms : ℤ)
      → lookup c.issuer trusted ≡ found
      → verify_access_by codec ed found c now_ms ≡ ok tt
      → IsAccess c trusted now_ms
  unfolding verify_access_by
  verify_access_by_sound none c trusted now_ms e h = ground arith
  verify_access_by_sound (some public_key) c trusted now_ms e h = (
    public_key,
    e,
    ground arith,
    ground arith,
    ground arith,
    ground arith,
    ground arith,
    ground arith,
    ground arith,
  )

  -- `Verify` accepts a capability exactly if its issuer is trusted with a key of the right size, its
  -- subject key has the right size, its resource parses, it has an expiry, which has not come, and
  -- its signature has the right size and verifies over its canonical bytes. With an empty keyring it
  -- accepts none.
  pub verify_access_iff :
      (c : AccessCapability) (trusted : Map Bytes) (now_ms : ℤ)
      → (verify_access codec ed c trusted now_ms ≡ ok tt) ↔ IsAccess c trusted now_ms
  unfolding verify_access verify_access_by
  verify_access_iff c trusted now_ms = (
    λ h. verify_access_by_sound (lookup c.issuer trusted) c trusted now_ms refl (ground arith),
    λ (public_key, e, a, b, d, f, g, i, j).
        let full = nonempty c.issuer public_key trusted e in
        let expiry : is_nonpositive c.expires_at_ms ≡ false = ground (arith, f) in
        let live : leb_ℤ c.expires_at_ms now_ms ≡ false = ground (arith, g) in
        rw (full, e) (rw (a, b, d, expiry, live, i, j) refl),
  )

  module _ (private_key public_key : Bytes) (keys : IsKeyPair ed private_key public_key)
      (trusted : Map Bytes) (key_id : String)
      (known : lookup key_id trusted ≡ some public_key) where
    -- Each capability that is signed verifies until it expires, with the issuer's key under its
    -- identifier; nothing that `Sign` accepts is refused by `Verify`.
    pub sign_access-verify_access :
        (c signed : AccessCapability) (now_ms : ℤ)
        → sign_access codec ed key_id private_key c ≡ ok signed
        → leb_ℤ signed.expires_at_ms now_ms ≡ false
        → verify_access codec ed signed trusted now_ms ≡ ok tt
    unfolding sign_access verify_access verify_access_by stamp_access access_bytes
    sign_access-verify_access c signed now_ms h live =
        let a : has_size c.subject_public_key public_key_size ≡ true = ground arith in
        let b : is_resource (parse_resource c.resource) ≡ true = ground arith in
        let d : is_nonpositive c.expires_at_ms ≡ false = ground arith in
        let e : stamp_access codec ed key_id private_key c ≡ signed = ground arith in
        let f : leb_ℤ c.expires_at_ms now_ms ≡ false =
          ap (λ s. leb_ℤ s.expires_at_ms now_ms) e ∙ live in
        ap (λ s. verify_access codec ed s trusted now_ms) (sym e)
        ∙ rw (nonempty key_id public_key trusted known, known)
            (rw (keys.public_size, a, b, d, f, keys.sign_size, keys.sign_verifies) refl)

    -- Each tombstone that is signed verifies, at any time.
    pub sign_tombstone-verify_tombstone :
        (t signed : RevocationTombstone)
        → sign_tombstone codec ed key_id private_key t ≡ ok signed
        → verify_tombstone codec ed signed trusted ≡ ok tt
    unfolding sign_tombstone verify_tombstone verify_tombstone_by stamp_tombstone tombstone_bytes
    sign_tombstone-verify_tombstone t signed h =
        let b : is_resource (parse_resource t.resource) ≡ true = ground arith in
        let d : (t.nonce == "" || is_nonpositive t.not_after_ms) ≡ false = ground arith in
        let e : stamp_tombstone codec ed key_id private_key t ≡ signed = ground arith in
        ap (λ s. verify_tombstone codec ed s trusted) (sym e)
        ∙ rw (nonempty key_id public_key trusted known, known)
            (rw (keys.public_size, b, d, keys.sign_size, keys.sign_verifies) refl)
