-- ===== src/Base/Toy.antt =====
-- A signature scheme that fits the laws of Base/Ed25519, for the tests.
use Prim.Native.Nat.{ℕ, zero, suc}
use mathlib.Core.Path.{◌≡◌, refl, ap}
use mathlib.Core.Bool.{true}
use mathlib.Core.List.{[], ◌∷◌}
use native.Mathlib.Omega.{arith}
use xx_federation_contracts.Base.Lists.{length}
use xx_federation_contracts.Base.Bytes.{Bytes, same_bytes, same_refl}
use xx_federation_contracts.Base.Ed25519.{Ed25519, IsKeyPair, has_size}

-- The first `n` bytes, filled up with zeros.
abbrev pub stretch : ℕ → Bytes → Bytes
stretch zero bytes = []
stretch (suc n) [] = 0 ∷ stretch n []
stretch (suc n) (b ∷ bytes) = b ∷ stretch n bytes

length-stretch : (n : ℕ) (bytes : Bytes) → length (stretch n bytes) ≡ n
length-stretch zero bytes = refl
length-stretch (suc n) [] = ap suc (length-stretch n [])
length-stretch (suc n) (b ∷ bytes) = ap suc (length-stretch n bytes)

stretch-size : (n : ℕ) (bytes : Bytes) → has_size (stretch n bytes) n ≡ true
stretch-size n bytes = ground (arith, length-stretch n bytes)

-- Signatures are 64 bytes of the message.
abbrev pub toy : Ed25519
toy = record {
  sign = λ private_key m. stretch 64 m;
  verify = λ public_key m signature. same_bytes signature (stretch 64 m);
  public = stretch 32;
}

pub toy_keys : (seed : Bytes) → IsKeyPair toy (stretch 64 seed) (stretch 32 (stretch 64 seed))
toy_keys seed = record {
  private_size = stretch-size 64 seed;
  public_size = stretch-size 32 (stretch 64 seed);
  derived = refl;
  sign_size = stretch-size 64;
  sign_verifies = λ m. same_refl (stretch 64 m);
}

abbrev pub no_bytes : Bytes
no_bytes = []

abbrev pub push : ℕ → Bytes → Bytes
push b bytes = b ∷ bytes
