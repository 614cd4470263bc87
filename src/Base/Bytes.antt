-- ===== src/Base/Bytes.antt =====
-- What the sources use of the package `bytes`: equality and the order of byte sequences, and the
-- big-endian numbers of encoding/binary.
use Prim.Native.Nat.{ℕ}
use mathlib.Core.Path.{◌≡◌, refl, ap, sym, ◌∙◌}
use mathlib.Core.Logic.{◌↔◌}
use mathlib.Core.Bool.{Bool, true, false, ◌&&◌, ◌||◌}
use mathlib.Core.List.{List, [], ◌∷◌}
use native.Mathlib.Omega.{arith}
use xx_federation_contracts.Base.Tests.{ltb, nat_eq}

abbrev pub Bytes : Type 0
Bytes = List ℕ

-- `bytes.Equal`
unfoldable pub same_bytes : Bytes → Bytes → Bool
same_bytes [] [] = true
same_bytes [] (y ∷ ys) = false
same_bytes (x ∷ xs) [] = false
same_bytes (x ∷ xs) (y ∷ ys) = nat_eq x y && same_bytes xs ys

-- `bytes.Compare(a, b) < 0`
unfoldable pub less_bytes : Bytes → Bytes → Bool
less_bytes [] [] = false
less_bytes [] (y ∷ ys) = true
less_bytes (x ∷ xs) [] = false
less_bytes (x ∷ xs) (y ∷ ys) = ltb x y || (nat_eq x y && less_bytes xs ys)

pub same_refl : (xs : Bytes) → same_bytes xs xs ≡ true
unfolding same_bytes
same_refl [] = refl
same_refl (x ∷ xs) = ground (arith, same_refl xs)

pub same_eq : (xs ys : Bytes) → same_bytes xs ys ≡ true → xs ≡ ys
unfolding same_bytes
same_eq [] [] h = refl
same_eq [] (y ∷ ys) h = ground arith
same_eq (x ∷ xs) [] h = ground arith
same_eq (x ∷ xs) (y ∷ ys) h = ground (arith, same_eq xs ys)

pub same_iff : (xs ys : Bytes) → (same_bytes xs ys ≡ true) ↔ (xs ≡ ys)
same_iff xs ys = (same_eq xs ys, λ e. ap (same_bytes xs) (sym e) ∙ same_refl xs)

pub less_bytes_irrefl : (xs : Bytes) → less_bytes xs xs ≡ false
unfolding less_bytes
less_bytes_irrefl [] = refl
less_bytes_irrefl (x ∷ xs) = ground (arith, less_bytes_irrefl xs)

pub less_bytes_trans :
    (xs ys zs : Bytes) → less_bytes xs ys ≡ true → less_bytes ys zs ≡ true → less_bytes xs zs ≡ true
unfolding less_bytes
less_bytes_trans [] [] zs h k = ground arith
less_bytes_trans [] (y ∷ ys) [] h k = ground arith
less_bytes_trans [] (y ∷ ys) (z ∷ zs) h k = refl
less_bytes_trans (x ∷ xs) [] zs h k = ground arith
less_bytes_trans (x ∷ xs) (y ∷ ys) [] h k = ground arith
less_bytes_trans (x ∷ xs) (y ∷ ys) (z ∷ zs) h k = ground (arith, less_bytes_trans xs ys zs)

pub less_bytes_asym : (xs ys : Bytes) → less_bytes xs ys ≡ true → less_bytes ys xs ≡ false
unfolding less_bytes
less_bytes_asym [] [] h = refl
less_bytes_asym [] (y ∷ ys) h = refl
less_bytes_asym (x ∷ xs) [] h = ground arith
less_bytes_asym (x ∷ xs) (y ∷ ys) h = ground (arith, less_bytes_asym xs ys)

-- Sequences of which neither is less than the other are equal.
pub less_bytes_total :
    (xs ys : Bytes) → less_bytes xs ys ≡ false → less_bytes ys xs ≡ false → same_bytes xs ys ≡ true
unfolding less_bytes same_bytes
less_bytes_total [] [] h k = refl
less_bytes_total [] (y ∷ ys) h k = ground arith
less_bytes_total (x ∷ xs) [] h k = ground arith
less_bytes_total (x ∷ xs) (y ∷ ys) h k = ground (arith, less_bytes_total xs ys)

less_bytes_test : less_bytes (1 ∷ 2 ∷ []) (1 ∷ 3 ∷ []) ≡ true
unfolding less_bytes
less_bytes_test = refl
