-- ===== src/Base/Ed25519.antt =====
-- Ed25519, which is not under the repository, with the sizes of crypto/ed25519 and the documented
-- behaviour that signing and verifying rely on.
use Prim.Native.Nat.{ℕ}
use mathlib.Core.Path.{◌≡◌}
use mathlib.Core.Bool.{Bool, true}
use xx_federation_contracts.Base.Tests.{nat_eq}
use xx_federation_contracts.Base.Lists.{length}
use xx_federation_contracts.Base.Bytes.{Bytes}

pub record Ed25519 : Type 0 where
  pub sign : Bytes → Bytes → Bytes
  pub verify : Bytes → Bytes → Bytes → Bool
  pub public : Bytes → Bytes

-- `ed25519.PrivateKeySize`, `ed25519.PublicKeySize` and `ed25519.SignatureSize`.
abbrev pub private_key_size : ℕ
private_key_size = 64

abbrev pub public_key_size : ℕ
public_key_size = 32

abbrev pub signature_size : ℕ
signature_size = 64

-- `len(b) == n`
abbrev pub has_size : Bytes → ℕ → Bool
has_size bytes n = nat_eq (length bytes) n

-- A private key and its public key: their signatures have their size and verify.
pub record IsKeyPair (ed : Ed25519) (private_key public_key : Bytes) : Type 0 where
  pub private_size : has_size private_key private_key_size ≡ true
  pub public_size : has_size public_key public_key_size ≡ true
  pub derived : ed.public private_key ≡ public_key
  pub sign_size : (m : Bytes) → has_size (ed.sign private_key m) signature_size ≡ true
  pub sign_verifies : (m : Bytes) → ed.verify public_key m (ed.sign private_key m) ≡ true
