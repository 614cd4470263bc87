-- ===== src/Base/Slices/Order.antt =====
-- Go's order of strings is total, so that sorting by distinct keys has one result for all orders of
-- a list.
use Prim.Native.Char.{code}
use Prim.Native.Nat.{ℕ, Ordering, compare as compare_ℕ}
use Prim.Native.String.{String, [], ◌∷◌, compare}
use Prim.Native.String.compare
use Prim.Native.String.{then as then_order}
use mathlib.Core.List.{List, Permᴰ, map}
use mathlib.Core.Path.{◌≡◌, refl, ap, ◌∙◌, sym, subst}
use mathlib.Core.Bool.{Bool, true, false, ◌||◌}
use mathlib.Core.Logic.{inl, inr}
use native.Mathlib.Omega.{arith}
use text.Mathlib.Text.{◌==◌}
use text.Mathlib.TextEquality.{eq_iff}
use xx_federation_contracts.Base.Sort.{insert, sort}
use xx_federation_contracts.Base.Tests.{Bool-cases, or-false}
use xx_federation_contracts.Base.Slices.{less_text, less_text-asym, mem, IsNodup}

step_trans :
    (a b c : ℕ) (r r' r'' : Ordering)
    → (r ≡ Ordering.lt → r' ≡ Ordering.lt → r'' ≡ Ordering.lt)
    → then_order (compare_ℕ a b) r ≡ Ordering.lt
    → then_order (compare_ℕ b c) r' ≡ Ordering.lt
    → then_order (compare_ℕ a c) r'' ≡ Ordering.lt
step_trans a b c r r' r'' h k l = ground arith

lt_text_trans :
    (s t u : String)
    → compare s t ≡ Ordering.lt
    → compare t u ≡ Ordering.lt
    → compare s u ≡ Ordering.lt
lt_text_trans [] [] u h k = k
lt_text_trans (b ∷ s) [] u h k = cc (compare.cons-nil b s)
lt_text_trans [] (d ∷ t) [] h k = cc (compare.cons-nil d t)
lt_text_trans [] (d ∷ t) (e ∷ u) h k = compare.nil-cons e u
lt_text_trans (b ∷ s) (c ∷ t) [] h k = cc (compare.cons-nil c t)
lt_text_trans (b ∷ s) (c ∷ t) (d ∷ u) h k =
    compare.cons-cons b d s u
    ∙ step_trans (code b) (code c) (code d) (compare s t) (compare t u) (compare s u)
        (lt_text_trans s t u) (sym (compare.cons-cons b c s t) ∙ h)
        (sym (compare.cons-cons c d t u) ∙ k)

step_gt :
    (a b : ℕ) (r r' : Ordering)
    → (r ≡ Ordering.gt → r' ≡ Ordering.lt)
    → then_order (compare_ℕ a b) r ≡ Ordering.gt
    → then_order (compare_ℕ b a) r' ≡ Ordering.lt
step_gt a b r r' h k = ground arith

gt_text-flip : (s t : String) → compare s t ≡ Ordering.gt → compare t s ≡ Ordering.lt
gt_text-flip [] [] h = cc
gt_text-flip [] (d ∷ t) h = cc (compare.nil-cons d t)
gt_text-flip (c ∷ s) [] h = compare.nil-cons c s
gt_text-flip (c ∷ s) (d ∷ t) h =
    compare.cons-cons d c t s
    ∙ step_gt (code c) (code d) (compare s t) (compare t s) (gt_text-flip s t)
        (sym (compare.cons-cons c d s t) ∙ h)

-- Of two different texts one is below the other.
less_text-total : (s t : String) → (s == t) ≡ false → less_text s t ≡ false → less_text t s ≡ true
less_text-total s t h k = ground (arith, gt_text-flip s t)

-- A text that the lower one of two texts is not below is itself below the upper one.
less_text-cotrans :
    (s t u : String) → less_text s t ≡ true → less_text s u ≡ false → less_text u t ≡ true
less_text-cotrans s t u h k = elim (Bool-cases (s == u)) [
  | inl same ↦ subst (λ x. less_text x t ≡ true) ((eq_iff s u).0 same) h
  | inr other ↦ ground (arith, gt_text-flip s u, lt_text_trans u s t)
]

module _ {ℓ} {A : Type ℓ} (key : A → String) where
  abbrev pub less_key : A → A → Bool
  less_key x y = less_text (key x) (key y)

  insert-swap :
      (x y : A) (zs : List A)
      → (key x == key y) ≡ false
      → insert less_key x (insert less_key y zs) ≡ insert less_key y (insert less_key x zs)
  unfolding insert
  insert-swap x y List.[] h = elim (Bool-cases (less_key x y)) [
    | inl below ↦ rw (below, less_text-asym (key x) (key y) below) refl
    | inr above ↦ rw (above, less_text-total (key x) (key y) h above) refl
  ]
  insert-swap x y (List.◌∷◌ z zs) h = elim (Bool-cases (less_key z y)) [
    | inl a ↦ elim (Bool-cases (less_key z x)) [
      | inl b ↦ rw a (rw b (rw a (ap (λ l. List.◌∷◌ z l) (insert-swap x y zs h))))
      | inr b ↦ rw a (rw b (rw (less_text-cotrans (key z) (key y) (key x) a b) (rw a refl)))
    ]
    | inr a ↦ elim (Bool-cases (less_key z x)) [
      | inl b ↦ rw a (rw b (rw (less_text-cotrans (key z) (key x) (key y) b a) (rw a refl)))
      | inr b ↦ elim (Bool-cases (less_key x y)) [
        | inl below ↦ rw a (rw b (rw (below, less_text-asym (key x) (key y) below) (rw a refl)))
        | inr above ↦ rw a (rw b (rw (above, less_text-total (key x) (key y) h above) refl))
      ]
    ]
  ]

  or_swap : (p q r : Bool) → (p || (q || r)) ≡ (q || (p || r))
  or_swap p q r = ground arith

  -- No two elements have one key.
  abbrev pub IsUnique : List A → Type 0
  IsUnique xs = IsNodup (map key xs)

  swap-IsUnique :
      (x y : A) (xs : List A)
      → IsUnique (List.◌∷◌ x (List.◌∷◌ y xs))
      → IsUnique (List.◌∷◌ y (List.◌∷◌ x xs))
  swap-IsUnique x y xs (other, (fresh, d)) =
      let (apart, new) = or-false (key y == key x) (mem (key x) (map key xs)) other in
      (ground (arith, eq_iff (key x) (key y), eq_iff (key y) (key x)), (new, d))

  perm-IsUnique :
      {xs ys : List A}
      → Permᴰ xs ys
      → ((k : String) → mem k (map key ys) ≡ mem k (map key xs)) × (IsUnique xs → IsUnique ys)
  perm-IsUnique Permᴰ.nil = (λ k. refl, λ d. d)
  perm-IsUnique (Permᴰ.cons {a} {b} {l₁} {l₂} e p) =
      let (same, unique) = perm-IsUnique p in
      (
        λ k.
            ap (λ c. key c == k || mem k (map key l₂)) (sym e) ∙ ap (λ m. key a == k || m) (same k),
        λ (fresh, d). (ap (λ c. mem (key c) (map key l₂)) (sym e) ∙ same (key a) ∙ fresh, unique d),
      )
  perm-IsUnique (Permᴰ.swap {a} {b} {a'} {b'} {l} e f) = (
    λ k.
        ap (λ c. key c == k || (key b' == k || mem k (map key l))) (sym f)
        ∙ ap (λ c. key b == k || (key c == k || mem k (map key l))) (sym e)
        ∙ or_swap (key b == k) (key a == k) (mem k (map key l)),
    λ d.
        subst (λ c. IsUnique (List.◌∷◌ c (List.◌∷◌ b' l))) f
          (subst (λ c. IsUnique (List.◌∷◌ b (List.◌∷◌ c l))) e (swap-IsUnique a b l d)),
  )
  perm-IsUnique (Permᴰ.trans p q) =
      let (s1, u1) = perm-IsUnique p in
      let (s2, u2) = perm-IsUnique q in (λ k. s2 k ∙ s1 k, λ d. u2 (u1 d))

  -- Permutations of a list without two elements of one key are sorted alike.
  pub sort-perm : {xs ys : List A} → Permᴰ xs ys → IsUnique xs → sort less_key xs ≡ sort less_key ys
  unfolding sort
  sort-perm Permᴰ.nil d = refl
  sort-perm (Permᴰ.cons {a} {b} {l₁} {l₂} e p) (fresh, d) =
      ap (λ c. insert less_key c (sort less_key l₁)) e ∙ ap (insert less_key b) (sort-perm p d)
  sort-perm (Permᴰ.swap {a} {b} {a'} {b'} {l} e f) (fresh, d) =
      insert-swap a b (sort less_key l) (different fresh)
      ∙ ap (λ c. insert less_key c (insert less_key a (sort less_key l))) f
      ∙ ap (λ c. insert less_key a' (insert less_key c (sort less_key l))) e
    where
      different : mem (key a) (List.◌∷◌ (key b) (map key l)) ≡ false → (key a == key b) ≡ false
      different h = ground (arith, eq_iff (key a) (key b), eq_iff (key b) (key a))
  sort-perm (Permᴰ.trans p q) d = sort-perm p d ∙ sort-perm q ((perm-IsUnique p).1 d)
