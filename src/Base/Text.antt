-- ===== src/Base/Text.antt =====
-- Go strings as texts of code points, and what the sources use of the package `strings`. A byte
-- sequence that is not UTF-8 is outside the model.
use Prim.Native.Char.{code}
use Prim.Native.String.{String, [], ◌∷◌, ◌++◌}
use xx_federation_contracts.Base.Tests.{nat_eq, leb, if◌then◌else◌, Bool-cases}
use mathlib.Core.Logic.{inl, inr}
use Prim.Native.Nat.{ℕ}
use mathlib.Core.Path.{◌≡◌, refl, ap, ◌∙◌}
use mathlib.Core.Bool.{Bool, true, false, not, ◌&&◌, ◌||◌}
use native.Mathlib.Omega.{arith}
use text.Mathlib.TextLemmas.{cons≢nil, nil-append, cons-append, append-eq-nil_iff}
use text.Mathlib.Text.{◌==◌}
use text.Mathlib.TextEquality.{eq_iff}

-- `unicode.IsSpace`
unfoldable pub is_space : ℕ → Bool
is_space c =
    (leb 9 c && leb c 13)
    || nat_eq c 32
    || nat_eq c 0x85
    || nat_eq c 0xa0
    || nat_eq c 0x1680
    || (leb 0x2000 c && leb c 0x200a)
    || nat_eq c 0x2028
    || nat_eq c 0x2029
    || nat_eq c 0x202f
    || nat_eq c 0x205f
    || nat_eq c 0x3000

-- `s == ""`
abbrev pub is_nil : String → Bool
is_nil [] = true
is_nil (c ∷ s) = false

unfoldable pub trim_left : String → String
trim_left [] = []
trim_left (c ∷ s) = if is_space (code c) then trim_left s else c ∷ s

unfoldable pub trim_right : String → String
trim_right [] = []
trim_right (c ∷ s) =
    let rest = trim_right s in if is_space (code c) && is_nil rest then [] else c ∷ rest

-- `strings.TrimSpace`
unfoldable pub trim_space : String → String
unfolding trim_left trim_right is_space
trim_space s = trim_right (trim_left s)

abbrev HasNoSpaceAhead : String → Type 0
HasNoSpaceAhead [] = Unit
HasNoSpaceAhead (c ∷ s) = is_space (code c) ≡ false

trim_left-HasNoSpaceAhead : (s : String) → HasNoSpaceAhead (trim_left s)
unfolding trim_left
trim_left-HasNoSpaceAhead [] = tt
trim_left-HasNoSpaceAhead (c ∷ s) = elim (Bool-cases (is_space (code c))) [
  | inl space ↦ rw (space, trim_left) (trim_left-HasNoSpaceAhead s)
  | inr other ↦ rw (other, trim_left) other
]

trim_left_of_HasNoSpaceAhead : (s : String) → HasNoSpaceAhead s → trim_left s ≡ s
unfolding trim_left
trim_left_of_HasNoSpaceAhead [] h = refl
trim_left_of_HasNoSpaceAhead (c ∷ s) h = rw h

trim_right-HasNoSpaceAhead : (s : String) → HasNoSpaceAhead s → HasNoSpaceAhead (trim_right s)
unfolding trim_right
trim_right-HasNoSpaceAhead [] h = tt
trim_right-HasNoSpaceAhead (c ∷ s) h = rw h h

trim_right_idem : (s : String) → trim_right (trim_right s) ≡ trim_right s
unfolding trim_right
trim_right_idem [] = refl
trim_right_idem (c ∷ s) = elim (Bool-cases (is_space (code c) && is_nil (trim_right s))) [
  | inl gone ↦ rw gone
  | inr kept ↦ rw kept (rw (trim_right_idem s, kept))
]

-- Trimming a second time changes nothing.
pub trim_space_idem : (s : String) → trim_space (trim_space s) ≡ trim_space s
unfolding trim_space
trim_space_idem s =
    ap trim_right (
      trim_left_of_HasNoSpaceAhead (trim_right (trim_left s))
        (trim_right-HasNoSpaceAhead (trim_left s) (trim_left-HasNoSpaceAhead s)))
    ∙ trim_right_idem (trim_left s)

-- Whether no letter of a text is a space.
abbrev pub spaceless : String → Bool
spaceless [] = true
spaceless (c ∷ s) = not (is_space (code c)) && spaceless s

pub spaceless-++ :
    (s t : String) → spaceless s ≡ true → spaceless t ≡ true → spaceless (s ++ t) ≡ true
spaceless-++ [] t h k = rw nil-append k
spaceless-++ (c ∷ s) t h k = rw cons-append (ground (arith, spaceless-++ s t))

spaceless-HasNoSpaceAhead : (s : String) → spaceless s ≡ true → HasNoSpaceAhead s
spaceless-HasNoSpaceAhead [] h = tt
spaceless-HasNoSpaceAhead (c ∷ s) h = ground arith

trim_right_of_spaceless : (s : String) → spaceless s ≡ true → trim_right s ≡ s
unfolding trim_right
trim_right_of_spaceless [] h = refl
trim_right_of_spaceless (c ∷ s) h = ground (arith, trim_right_of_spaceless s)

pub trim_space_of_spaceless : (s : String) → spaceless s ≡ true → trim_space s ≡ s
unfolding trim_space
trim_space_of_spaceless s h =
    ap trim_right (trim_left_of_HasNoSpaceAhead s (spaceless-HasNoSpaceAhead s h))
    ∙ trim_right_of_spaceless s h

abbrev pub filled : String → Bool
filled s = not (s == "")

pub filled-++ : (s t : String) → filled s ≡ true → filled (s ++ t) ≡ true
filled-++ s t h = ground (arith, eq_iff s "", eq_iff (s ++ t) "", append-eq-nil_iff {p = s} {q = t})

trim_space_test : trim_space "  a b\n" ≡ "a b"
unfolding trim_space
trim_space_test = refl

-- Whether a text has a letter that is no space.
abbrev pub marked : String → Bool
marked [] = false
marked (c ∷ s) = not (is_space (code c)) || marked s

pub marked-++ : (s t : String) → marked t ≡ true → marked (s ++ t) ≡ true
marked-++ [] t h = rw nil-append h
marked-++ (c ∷ s) t h = rw cons-append (ground (arith, marked-++ s t h))

marked-trim_left : (s : String) → marked s ≡ true → marked (trim_left s) ≡ true
unfolding trim_left
marked-trim_left [] h = h
marked-trim_left (c ∷ s) h = ground (arith, marked-trim_left s)

trim_right-marked : (s : String) → marked s ≡ true → is_nil (trim_right s) ≡ false
unfolding trim_right
trim_right-marked [] h = ground arith
trim_right-marked (c ∷ s) h = ground (arith, trim_right-marked s)

nil_test : (s : String) → is_nil s ≡ false → (s == "") ≡ false
nil_test [] h = ground arith
nil_test (c ∷ s) h = elim (Bool-cases ((c ∷ s) == "")) [
  | inl e ↦ elim (cons≢nil ((eq_iff (c ∷ s) "").0 e)) [ ]
  | inr e ↦ e
]

-- Such a text is not empty after trimming.
pub trim_space-marked : (s : String) → marked s ≡ true → (trim_space s == "") ≡ false
unfolding trim_space
trim_space-marked s h = nil_test _ (trim_right-marked (trim_left s) (marked-trim_left s h))
