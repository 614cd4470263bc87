-- ===== src/ServiceAccessCap/Tests.antt =====
-- serviceaccesscap: one capability, its resource and its tombstone.
use xx_federation_contracts.Base.{◌≡◌, refl, true, [], ◌∷◌, none, some, ◌↔◌, ◌&&◌}
use Prim.Native.String.{◌∷◌, ◌++◌}
use xx_federation_contracts.Base.Int.{pos}
use xx_federation_contracts.Base.Maps.{Map, lookup}
use xx_federation_contracts.Base.Text.{filled}
use xx_federation_contracts.Base.Bytes.{Bytes}
use xx_federation_contracts.Base.Cut.{contains, cut}
use xx_federation_contracts.Base.Ed25519.{has_size, public_key_size}
use xx_federation_contracts.Base.Toy.{toy, toy_keys, stretch, no_bytes, push}
use xx_federation_contracts.Base.Codes.{codes, codes-inj}
use xx_federation_contracts.Base.Exec.{ok}
use xx_federation_contracts.ServiceAccessCap.Types.{AccessCapability, AccessCodec}
use xx_federation_contracts.ServiceAccessCap.Resource.{
  slash, parsed, parse_resource, is_resource, IsSegments, parse_resource_iff,
}
use xx_federation_contracts.ServiceAccessCap.Capability.{
  binds_public_key, authorizes_resource, stamp_access, sign_access, verify_access,
}
use xx_federation_contracts.ServiceAccessCap.Signed.{
  IsAccess, grants_iff, verify_access_iff, sign_access-verify_access,
}

abbrev codec : AccessCodec
codec = record {
  marshal_capability = λ c. codes c.resource;
  marshal_tombstone = λ t. codes t.nonce;
  sha256 = push 1;
  utf8 = codes;
  base64_encode = λ bytes. "";
  base64_decode = λ s. none;
}

abbrev private_key : Bytes
private_key = stretch 64 (push 9 no_bytes)

abbrev public_key : Bytes
public_key = stretch 32 private_key

abbrev keyring : Map Bytes
keyring = ("issuer", public_key) ∷ []

known : lookup "issuer" keyring ≡ some public_key
unfolding lookup
known = refl

abbrev capability : AccessCapability
capability = record {
  subject_public_key = stretch 32 (push 1 no_bytes);
  subject_spiffe = "";
  resource = "org/svc";
  scope = "reach";
  issued_at_ms = pos 10;
  expires_at_ms = pos 100;
  issuer = "";
  nonce = "n";
  signature = no_bytes;
}

parse_resource_iff_example :
    (parse_resource "org/svc" ≡ ok ("org", "svc"))
    ↔ (("org/svc" ≡ "org" ++ (slash ∷ "svc")) × IsSegments "org" "svc")
parse_resource_iff_example = parse_resource_iff "org/svc" "org" "svc"

parse_resource_test : parse_resource "org/svc" ≡ ok ("org", "svc")
unfolding parse_resource parsed cut contains
parse_resource_test = refl

grants_iff_example :
    ((binds_public_key capability (stretch 32 (push 1 no_bytes))
        && authorizes_resource codec capability "org/svc")
      ≡ true)
    ↔ ((has_size (stretch 32 (push 1 no_bytes)) public_key_size ≡ true)
        × (capability.subject_public_key ≡ stretch 32 (push 1 no_bytes))
        × (filled "org/svc" ≡ true)
        × (capability.resource ≡ "org/svc"))
grants_iff_example = grants_iff codec codes-inj capability (stretch 32 (push 1 no_bytes)) "org/svc"

verify_access_iff_example :
    (verify_access codec toy capability keyring (pos 20) ≡ ok tt)
    ↔ IsAccess codec toy capability keyring (pos 20)
verify_access_iff_example = verify_access_iff codec toy capability keyring (pos 20)

abbrev signed_capability : AccessCapability
signed_capability = stamp_access codec toy "issuer" private_key capability

signs : sign_access codec toy "issuer" private_key capability ≡ ok signed_capability
unfolding sign_access parse_resource parsed is_resource cut contains
signs = refl

sign_access-verify_access_example :
    verify_access codec toy signed_capability keyring (pos 20) ≡ ok tt
unfolding stamp_access
sign_access-verify_access_example =
    sign_access-verify_access codec toy private_key public_key (toy_keys (push 9 no_bytes)) keyring
      "issuer" known capability signed_capability (pos 20) signs refl
