-- ===== src/Base/Sort.antt =====
-- `sort.SliceStable` by a test `less`, as insertion sort: a stable sort has one result.
use xx_federation_contracts.Base.Tests.{if◌then◌else◌, Bool-cases}
use xx_federation_contracts.Base.Lists.{All, any}
use mathlib.Core.Path.{◌≡◌, refl, ap, ◌∙◌, subst}
use mathlib.Core.Bool.{Bool, true, false, ◌||◌}
use mathlib.Core.Logic.{inl, inr}
use mathlib.Core.List.{List, [], ◌∷◌}
use native.Mathlib.Omega.{arith}

module _ {ℓ} {A : Type ℓ} (less : A → A → Bool) where
  -- Before the first element that `x` is not above, so that equal elements keep their order.
  unfoldable pub insert : A → List A → List A
  insert x [] = x ∷ []
  insert x (y ∷ ys) = if less y x then y ∷ insert x ys else x ∷ (y ∷ ys)

  unfoldable pub sort : List A → List A
  unfolding insert
  sort [] = []
  sort (x ∷ xs) = insert x (sort xs)

  abbrev NotAbove : A → List A → Type 0
  NotAbove x [] = Unit
  NotAbove x (y ∷ ys) = less y x ≡ false

  -- No element is above the next one.
  abbrev pub IsSorted : List A → Type 0
  IsSorted [] = Unit
  IsSorted (x ∷ xs) = NotAbove x xs × IsSorted xs

  insert_of_NotAbove : (x : A) (xs : List A) → NotAbove x xs → insert x xs ≡ x ∷ xs
  unfolding insert
  insert_of_NotAbove x [] h = refl
  insert_of_NotAbove x (y ∷ ys) h = rw h

  -- Sorting leaves a sorted list alone.
  pub sort_of_IsSorted : (xs : List A) → IsSorted xs → sort xs ≡ xs
  unfolding sort
  sort_of_IsSorted [] h = refl
  sort_of_IsSorted (x ∷ xs) h =
      ap (insert x) (sort_of_IsSorted xs h.1) ∙ insert_of_NotAbove x xs h.0

  module _ (asym : (x y : A) → less x y ≡ true → less y x ≡ false) where
    insert-NotAbove :
        (y x : A) (ys : List A) → less y x ≡ true → NotAbove y ys → NotAbove y (insert x ys)
    unfolding insert
    insert-NotAbove y x [] h k = asym y x h
    insert-NotAbove y x (z ∷ zs) h k = elim (Bool-cases (less z x)) [
      | inl above ↦ rw above k
      | inr below ↦ rw below (asym y x h)
    ]

    insert-IsSorted : (x : A) (ys : List A) → IsSorted ys → IsSorted (insert x ys)
    unfolding insert
    insert-IsSorted x [] h = (tt, tt)
    insert-IsSorted x (y ∷ ys) h = elim (Bool-cases (less y x)) [
      | inl above ↦ rw above (insert-NotAbove y x ys above h.0, insert-IsSorted x ys h.1)
      | inr below ↦ rw below (below, h)
    ]

    pub sort-IsSorted : (xs : List A) → IsSorted (sort xs)
    unfolding sort
    sort-IsSorted [] = tt
    sort-IsSorted (x ∷ xs) = insert-IsSorted x (sort xs) (sort-IsSorted xs)

  module _ {κ} (P : A → Type κ) where
    insert-All : (x : A) (ys : List A) → P x → All P ys → All P (insert x ys)
    unfolding insert
    insert-All x [] p h = (p, tt)
    insert-All x (y ∷ ys) p h = elim (Bool-cases (less y x)) [
      | inl above ↦ rw above (h.0, insert-All x ys p h.1)
      | inr below ↦ rw below (p, h)
    ]

    -- What holds of every element still does after sorting.
    pub sort-All : (xs : List A) → All P xs → All P (sort xs)
    unfolding sort
    sort-All [] h = tt
    sort-All (x ∷ xs) h = insert-All x (sort xs) h.0 (sort-All xs h.1)

  pub any-insert : (p : A → Bool) (x : A) (ys : List A) → any p (insert x ys) ≡ (p x || any p ys)
  unfolding insert
  any-insert p x [] = refl
  any-insert p x (y ∷ ys) = elim (Bool-cases (less y x)) [
    | inl above ↦ rw above (ground (arith, any-insert p x ys))
    | inr below ↦ rw below refl
  ]

  -- Sorting keeps the elements.
  pub any-sort : (p : A → Bool) (xs : List A) → any p (sort xs) ≡ any p xs
  unfolding sort
  any-sort p [] = refl
  any-sort p (x ∷ xs) = any-insert p x (sort xs) ∙ ap (λ b. p x || b) (any-sort p xs)

  module _ {κ} (P : A → Type κ) where
    All-of_insert : (x : A) (ys : List A) → All P (insert x ys) → P x × All P ys
    unfolding insert
    All-of_insert x [] h = h
    All-of_insert x (y ∷ ys) h = elim (Bool-cases (less y x)) [
      | inl above ↦
          let (p, h') = subst (All P) (moved above) h in
          let (q, k) = All-of_insert x ys h' in (q, (p, k))
      | inr below ↦ subst (All P) (kept below) h
    ]
      where
        moved : less y x ≡ true → insert x (y ∷ ys) ≡ y ∷ insert x ys
        moved above = rw above refl

        kept : less y x ≡ false → insert x (y ∷ ys) ≡ x ∷ (y ∷ ys)
        kept below = rw below refl

    pub All-of_sort : (xs : List A) → All P (sort xs) → All P xs
    unfolding sort
    All-of_sort [] h = tt
    All-of_sort (x ∷ xs) h = let (p, k) = All-of_insert x (sort xs) h in (p, All-of_sort xs k)
