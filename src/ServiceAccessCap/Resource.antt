-- ===== src/ServiceAccessCap/Resource.antt =====
-- serviceaccesscap/capability.go: resources, `<org>/<svc>`.
use Prim.Native.Char.{Char}
use Prim.Native.String.{◌∷◌, ◌++◌}
use xx_federation_contracts.Base.{
  ◌≡◌, ap, sym, ◌∙◌, ◌↔◌, String, Bool, true, false, ◌||◌, Option, none, some, arith, if◌then◌else◌,
  ◌==◌,
}
use xx_federation_contracts.Base.Text.{filled, filled-++}
use xx_federation_contracts.Base.Cut.{contains, cut, cut_joined, IsCut, cut-IsCut}
use xx_federation_contracts.Base.Exec.{Result, ok, err}
use xx_federation_contracts.ServiceAccessCap.Types.{AccessError, bad_resource}

abbrev pub slash : Char
slash = "/"

-- `ParseResource` from the cut on.
unfoldable pub parsed : Option (String × String) → Result AccessError (String × String)
parsed none = err bad_resource
parsed (some (org, svc)) =
    if org == "" || svc == "" || contains slash svc then err bad_resource else ok (org, svc)

-- `ParseResource`
unfoldable pub parse_resource : String → Result AccessError (String × String)
unfolding parsed
parse_resource resource = if resource == "" then err bad_resource else parsed (cut slash resource)

-- `_, _, err := ParseResource(…)`, where only the error is used.
unfoldable pub is_resource : Result AccessError (String × String) → Bool
is_resource (err e) = false
is_resource (ok parts) = true

-- Two segments that are not empty and have no slash.
abbrev pub IsSegments : String → String → Type 0
IsSegments org svc =
    (filled org ≡ true)
    × (filled svc ≡ true)
    × (contains slash org ≡ false)
    × (contains slash svc ≡ false)

parsed_sound :
    (resource org svc : String) (parts : Option (String × String))
    → IsCut slash resource parts
    → parsed parts ≡ ok (org, svc)
    → (resource ≡ org ++ (slash ∷ svc)) × IsSegments org svc
unfolding parsed
parsed_sound resource org svc none c h = ground arith
parsed_sound resource org svc (some (a, b)) (e, f) h =
    let p : a ≡ org = ground arith in
    let q : b ≡ svc = ground arith in
    (
      e ∙ ap (λ t. t ++ (slash ∷ b)) p ∙ ap (λ t. org ++ (slash ∷ t)) q,
      (
        ap filled (sym p) ∙ ground arith,
        ap filled (sym q) ∙ ground arith,
        ap (contains slash) (sym p) ∙ f,
        ap (contains slash) (sym q) ∙ ground arith,
      ),
    )

-- `ParseResource` splits exactly the texts that are two segments with one slash between, both not
-- empty and without a slash, into these segments.
pub parse_resource_iff :
    (resource org svc : String)
    → (parse_resource resource ≡ ok (org, svc))
      ↔ ((resource ≡ org ++ (slash ∷ svc)) × IsSegments org svc)
unfolding parse_resource parsed
parse_resource_iff resource org svc = (
  λ h. parsed_sound resource org svc (cut slash resource) (cut-IsCut slash resource) (ground arith),
  λ (e, (a, b, c, d)).
      let more : (resource == "") ≡ false =
        ap (λ t. t == "") e ∙ ground (arith, filled-++ org (slash ∷ svc) a) in
      let parts : cut slash resource ≡ some (org, svc) =
        ap (cut slash) e ∙ cut_joined slash org svc c in
      rw (more, parts) (ground arith),
)
