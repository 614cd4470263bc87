-- ===== src/Base/Hex.antt =====
-- `hex.EncodeToString`, and that trimming leaves its texts alone.
use Prim.Native.String.{String, ◌++◌}
use Prim.Native.Nat.{ℕ, zero, suc, ◌/◌, ◌%◌, ◌<◌}
use mathlib.Core.List.{List, [], ◌∷◌}
use mathlib.Core.Path.{◌≡◌, refl}
use mathlib.Core.Bool.{Bool, true, false, ◌&&◌}
use native.Mathlib.Omega.{arith}
use text.Mathlib.Text.{◌==◌}
use xx_federation_contracts.Base.Lists.{length}
use xx_federation_contracts.Base.Text.{
  is_space, trim_space, spaceless, spaceless-++, trim_space_of_spaceless, filled, filled-++,
}
use xx_federation_contracts.Base.Tests.{not-true}

abbrev digits : List String
digits =
    "0" ∷ "1" ∷ "2" ∷ "3" ∷ "4" ∷ "5" ∷ "6" ∷ "7" ∷ "8" ∷ "9" ∷ "a" ∷ "b" ∷ "c" ∷ "d" ∷ "e" ∷ "f"
    ∷ []

abbrev get_or : List String → ℕ → String
get_or [] i = ""
get_or (x ∷ xs) zero = x
get_or (x ∷ xs) (suc i) = get_or xs i

-- Two digits for each byte.
unfoldable pub hex : List ℕ → String
hex [] = ""
hex (b ∷ bytes) = get_or digits (b / 16 % 16) ++ (get_or digits (b % 16) ++ hex bytes)

hex_test : hex (0 ∷ 171 ∷ 255 ∷ []) ≡ "00abff"
unfolding hex
hex_test = refl

abbrev all_texts : (String → Bool) → List String → Bool
all_texts p [] = true
all_texts p (x ∷ xs) = p x && all_texts p xs

get_or-spaceless :
    (xs : List String) (i : ℕ) → all_texts spaceless xs ≡ true → spaceless (get_or xs i) ≡ true
get_or-spaceless [] i h = refl
get_or-spaceless (x ∷ xs) zero h = ground arith
get_or-spaceless (x ∷ xs) (suc i) h = get_or-spaceless xs i (ground arith)

digit-spaceless : (i : ℕ) → spaceless (get_or digits i) ≡ true
unfolding is_space
digit-spaceless i = get_or-spaceless digits i refl

hex-spaceless : (bytes : List ℕ) → spaceless (hex bytes) ≡ true
unfolding hex
hex-spaceless [] = refl
hex-spaceless (b ∷ bytes) =
    spaceless-++ (get_or digits (b / 16 % 16)) _ (digit-spaceless (b / 16 % 16))
      (spaceless-++ (get_or digits (b % 16)) _ (digit-spaceless (b % 16)) (hex-spaceless bytes))

-- Trimming leaves a hexadecimal text alone.
pub trim_space-hex : (bytes : List ℕ) → trim_space (hex bytes) ≡ hex bytes
trim_space-hex bytes = trim_space_of_spaceless (hex bytes) (hex-spaceless bytes)

get_or-filled :
    (xs : List String) (i : ℕ)
    → i < length xs
    → all_texts filled xs ≡ true
    → filled (get_or xs i) ≡ true
get_or-filled [] i h k = ground arith
get_or-filled (x ∷ xs) zero h k = ground arith
get_or-filled (x ∷ xs) (suc i) h k = get_or-filled xs i (omega arith) (ground arith)

-- The text of at least one byte is not empty.
pub hex_filled : (b : ℕ) (bytes : List ℕ) → (hex (b ∷ bytes) == "") ≡ false
unfolding hex
hex_filled b bytes = not-true _ (
    filled-++ (get_or digits (b / 16 % 16)) _
      (get_or-filled digits (b / 16 % 16) (omega arith) refl))
