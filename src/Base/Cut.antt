-- ===== src/Base/Cut.antt =====
-- What the sources use of the package `strings` for texts with a separator: `Cut` and `Contains`, with
-- a separator of one character.
use Prim.Native.Char.{Char, code}
use Prim.Native.String.{String, [], ◌∷◌, ◌++◌}
use mathlib.Core.Path.{◌≡◌, refl, ap, sym, ◌∙◌}
use mathlib.Core.Logic.{inl, inr}
use mathlib.Core.Bool.{Bool, false, ◌||◌}
use mathlib.Core.Option.{Option, none, some}
use native.Mathlib.Omega.{arith}
use text.Mathlib.TextEquality.{Char-path}
use text.Mathlib.TextLemmas.{nil-append, cons-append}
use xx_federation_contracts.Base.Tests.{nat_eq, if◌then◌else◌, Bool-cases}

-- `strings.Contains(s, sep)`
unfoldable pub contains : Char → String → Bool
contains sep [] = false
contains sep (c ∷ s) = nat_eq (code c) (code sep) || contains sep s

abbrev prepend : Char → Option (String × String) → Option (String × String)
prepend c none = none
prepend c (some (before, after)) = some (c ∷ before, after)

-- `strings.Cut(s, sep)`: what is before and after the first separator, if there is one.
unfoldable pub cut : Char → String → Option (String × String)
cut sep [] = none
cut sep (c ∷ s) =
    let more = cut sep s in if nat_eq (code c) (code sep) then some ([], s) else prepend c more

-- A text is cut where the separator first stands.
pub cut_joined :
    (sep : Char) (before after : String)
    → contains sep before ≡ false
    → cut sep (before ++ (sep ∷ after)) ≡ some (before, after)
unfolding cut contains
cut_joined sep [] after h = rw nil-append (ground arith)
cut_joined sep (c ∷ s) after h = rw cons-append (ground (arith, cut_joined sep s after))

-- What a cut says of the text: it has no separator, or its parts are around the first one.
abbrev pub IsCut : Char → String → Option (String × String) → Type 0
IsCut sep s none = contains sep s ≡ false
IsCut sep s (some (before, after)) = (s ≡ before ++ (sep ∷ after)) × (contains sep before ≡ false)

prepend-IsCut :
    (sep c : Char) (s : String) (parts : Option (String × String))
    → nat_eq (code c) (code sep) ≡ false
    → IsCut sep s parts
    → IsCut sep (c ∷ s) (prepend c parts)
unfolding contains
prepend-IsCut sep c s none other h = ground arith
prepend-IsCut sep c s (some (before, after)) other (e, h) =
    (ap (λ t. c ∷ t) e ∙ sym (cons-append c before (sep ∷ after)), ground arith)

pub cut-IsCut : (sep : Char) (s : String) → IsCut sep s (cut sep s)
unfolding cut contains
cut-IsCut sep [] = refl
cut-IsCut sep (c ∷ s) = elim (Bool-cases (nat_eq (code c) (code sep))) [
  | inl same ↦
      rw same (
        ap (λ d. d ∷ s) (Char-path c sep (ground (arith, same))) ∙ sym (nil-append (sep ∷ s)),
        refl,
      )
  | inr other ↦ rw other (prepend-IsCut sep c s (cut sep s) other (cut-IsCut sep s))
]
