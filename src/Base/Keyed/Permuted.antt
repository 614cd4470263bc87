-- ===== src/Base/Keyed/Permuted.antt =====
-- Lists with distinct keys that are permutations of one another: lookup does not tell them apart, so
-- that they are sorted to the same list.
use mathlib.Core.Path.{◌≡◌, refl, ap, sym, ◌∙◌, subst}
use mathlib.Core.Option.{none}
use mathlib.Core.List.{List, ◌∷◌}
use mathlib.Core.List.{Permᴰ}
use mathlib.Core.List.{Memᴰ}
use native.Mathlib.Omega.{arith}
use xx_federation_contracts.Base.Lists.{All}
use xx_federation_contracts.Base.Sort.{sort}
use xx_federation_contracts.Base.Bytes.{Bytes, same_iff}
use xx_federation_contracts.Base.Keyed.{find, IsDistinct, less_key, sort_unique}

-- What holds of every element still does after a permutation.
pub All-perm {ℓ κ} :
    {A : Type ℓ} (P : A → Type κ) {xs ys : List A} → Permᴰ xs ys → All P xs → All P ys
All-perm P Permᴰ.nil h = h
All-perm P (Permᴰ.cons e p) (h, k) = (subst P e h, All-perm P p k)
All-perm P (Permᴰ.swap e f) (h, (k, l)) = (subst P f k, (subst P e h, l))
All-perm P (Permᴰ.trans p q) h = All-perm P q (All-perm P p h)

-- What holds of every element holds of a member.
pub All-mem {ℓ κ} : {A : Type ℓ} (P : A → Type κ) {a : A} {xs : List A} → Memᴰ a xs → All P xs → P a
All-mem P (Memᴰ.head e) (h, hs) = subst P (sym e) h
All-mem P (Memᴰ.tail m) (h, hs) = All-mem P m hs

module _ {ℓ} {A : Type ℓ} (key : A → Bytes) where
  -- Every key finds the same in both lists.
  abbrev pub Alike : List A → List A → Type ℓ
  Alike xs ys = (k : Bytes) → find key k xs ≡ find key k ys

  cons-Alike : (x : A) (xs ys : List A) → Alike xs ys → Alike (x ∷ xs) (x ∷ ys)
  unfolding find
  cons-Alike x xs ys h k = rw (h k) refl

  swap-Alike :
      (x y : A) (xs : List A) → find key (key x) (y ∷ xs) ≡ none → Alike (x ∷ y ∷ xs) (y ∷ x ∷ xs)
  unfolding find
  swap-Alike x y xs h k =
      ground (arith, same_iff (key y) (key x), same_iff (key x) k, same_iff (key y) k)

  swap-IsDistinct :
      (x y : A) (xs : List A) → IsDistinct key (x ∷ y ∷ xs) → IsDistinct key (y ∷ x ∷ xs)
  unfolding find
  swap-IsDistinct x y xs (h, (g, d)) =
      (ground (arith, same_iff (key x) (key y), same_iff (key y) (key x)), (ground arith, d))

  perm-Alike : {xs ys : List A} → Permᴰ xs ys → IsDistinct key xs → IsDistinct key ys × Alike xs ys
  perm-Alike Permᴰ.nil d = (d, λ k. refl)
  perm-Alike (Permᴰ.cons {a} {b} {l₁} {l₂} e p) (h, d) =
      let (d2, alike) = perm-Alike p d in
      (
        (ap (λ z. find key (key z) l₂) (sym e) ∙ sym (alike (key a)) ∙ h, d2),
        λ k. ap (λ z. find key k (z ∷ l₁)) e ∙ cons-Alike b l₁ l₂ alike k,
      )
  perm-Alike (Permᴰ.swap {a} {b} {a'} {b'} {l} e f) d = (
    subst (λ z. IsDistinct key (z ∷ b' ∷ l)) f
        (subst (λ z. IsDistinct key (b ∷ z ∷ l)) e (swap-IsDistinct a b l d)),
    λ k.
        swap-Alike a b l d.0 k
        ∙ ap (λ z. find key k (b ∷ z ∷ l)) e
        ∙ ap (λ z. find key k (z ∷ b' ∷ l)) f,
  )
  perm-Alike (Permᴰ.trans p q) d =
      let (d1, a1) = perm-Alike p d in let (d2, a2) = perm-Alike q d1 in (d2, λ k. a1 k ∙ a2 k)

  -- Permutations of a list with distinct keys are sorted alike.
  pub sort-perm :
      {xs ys : List A}
      → Permᴰ xs ys
      → IsDistinct key xs
      → sort (less_key key) xs ≡ sort (less_key key) ys
  sort-perm p d = let (e, alike) = perm-Alike p d in sort_unique key _ _ d e alike
