-- ===== src/Base/Codes.antt =====
-- The code points of a text, for the tests: a reading of texts as bytes that is injective.
use Prim.Native.Char.{code}
use Prim.Native.String.{String, [], ◌∷◌}
use mathlib.Core.Path.{◌≡◌, refl}
use native.Mathlib.Omega.{arith}
use text.Mathlib.TextEquality.{Char-path}
use xx_federation_contracts.Base.Bytes.{Bytes}
use xx_federation_contracts.Base.Toy.{no_bytes, push}

unfoldable pub codes : String → Bytes
codes [] = no_bytes
codes (c ∷ s) = push (code c) (codes s)

pub codes-inj : (s t : String) → codes s ≡ codes t → s ≡ t
unfolding codes
codes-inj [] [] h = refl
codes-inj [] (d ∷ t) h = ground arith
codes-inj (c ∷ s) [] h = ground arith
codes-inj (c ∷ s) (d ∷ t) h = cc (Char-path c d (ground arith), codes-inj s t (ground arith))
