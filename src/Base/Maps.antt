-- ===== src/Base/Maps.antt =====
-- Go's maps with string keys, as association lists in the order of insertion. Only `cloneKeyring`
-- ranges over a map that is modelled so.
use Prim.Native.String.{String}
use mathlib.Core.Path.{◌≡◌, refl, ap, subst}
use mathlib.Core.Bool.{Bool, true, false}
use mathlib.Core.Option.{Option, none, some}
use mathlib.Core.List.{List, [], ◌∷◌}
use native.Mathlib.Omega.{arith}
use text.Mathlib.Text.{◌==◌}
use text.Mathlib.TextEquality.{eq_iff}
use xx_federation_contracts.Base.Tests.{if◌then◌else◌, Bool-cases, eq_of_test}
use mathlib.Core.Logic.{inl, inr}

abbrev pub Map {ℓ} : Type ℓ → Type ℓ
Map V = List (String × V)

module _ {ℓ} {V : Type ℓ} where
  -- `v, ok := m[key]`
  unfoldable pub lookup : String → Map V → Option V
  lookup key [] = none
  lookup key (entry ∷ rest) = if entry.0 == key then some entry.1 else lookup key rest

  -- `m[key] = value`
  unfoldable pub insert : String → V → Map V → Map V
  insert key value [] = (key, value) ∷ []
  insert key value (entry ∷ rest) =
      let tail = insert key value rest in
      if entry.0 == key then (key, value) ∷ rest else entry ∷ tail

  pub lookup-insert :
      (key wanted : String) (value : V) (m : Map V)
      → lookup wanted (insert key value m) ≡ (if key == wanted then some value else lookup wanted m)
  unfolding lookup insert
  lookup-insert key wanted value [] = refl
  lookup-insert key wanted value (entry ∷ rest) = ground (
    arith,
    lookup-insert key wanted value rest,
    eq_iff entry.0 key,
    eq_iff entry.0 wanted,
    eq_iff key wanted,
  )

abbrev pub or_else {ℓ} : {V : Type ℓ} → V → Option V → V
or_else w none = w
or_else w (some v) = v

-- A property of every entry of a map.
module _ {ℓ κ} {V : Type ℓ} (P : String → V → Type κ) where
  abbrev pub Entries : Map V → Type κ
  Entries [] = Unit
  Entries ((k, v) ∷ m) = P k v × Entries m

  pub Entries-insert : (k : String) (v : V) (m : Map V) → P k v → Entries m → Entries (insert k v m)
  unfolding insert
  Entries-insert k v [] p h = (p, tt)
  Entries-insert k v ((j, w) ∷ m) p (q, h) = elim (Bool-cases (j == k)) [
    | inl same ↦ rw same (p, h)
    | inr other ↦ rw other (q, Entries-insert k v m p h)
  ]

  here : (k j : String) (v w : V) → j ≡ k → Option.some w ≡ some v → P j w → P k v
  here k j v w e f p = subst (P k) (ap (or_else w) f) (subst (λ x. P x w) e p)

  pub Entries-lookup : (k : String) (v : V) (m : Map V) → lookup k m ≡ some v → Entries m → P k v
  unfolding lookup
  Entries-lookup k v [] e h = ground arith
  Entries-lookup k v ((j, w) ∷ m) e (q, h) = elim (Bool-cases (j == k)) [
    | inl same ↦ here k j v w (eq_of_test j k same) (ground arith) q
    | inr other ↦ Entries-lookup k v m (ground arith) h
  ]

abbrev pub is_some {ℓ} : {V : Type ℓ} → Option V → Bool
is_some none = false
is_some (some v) = true

-- `_, ok := m[k]`
abbrev pub contains {ℓ} : {V : Type ℓ} → String → Map V → Bool
contains k m = is_some (lookup k m)
