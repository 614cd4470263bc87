-- ===== src/Base/Keyed.antt =====
-- Lists of which each element has a byte sequence as its key: lookup, and sorting by the key. Lists
-- with distinct keys that find the same elements are sorted to the same list.
pub mod Permuted
use mathlib.Core.Path.{◌≡◌, refl, ap, sym, ◌∙◌, subst}
use mathlib.Core.Logic.{◌↔◌, ◌⊎◌, inl, inr}
use mathlib.Core.Bool.{Bool, true, false, ◌&&◌, ◌||◌}
use mathlib.Core.Option.{Option, none, some}
use mathlib.Core.List.{List, [], ◌∷◌, ◌++◌, map}
use native.Mathlib.Omega.{arith}
use xx_federation_contracts.Base.Tests.{if◌then◌else◌, Bool-cases}
use xx_federation_contracts.Base.Lists.{All, any}
use xx_federation_contracts.Base.Maps.{or_else}
use xx_federation_contracts.Base.Sort.{insert, sort, sort-IsSorted, IsSorted}
use xx_federation_contracts.Base.Bytes.{
  Bytes, same_bytes, less_bytes, same_refl, same_eq, same_iff, less_bytes_irrefl, less_bytes_trans,
  less_bytes_asym, less_bytes_total,
}

module _ {ℓ} {A : Type ℓ} (key : A → Bytes) where
  -- The first element with the key.
  unfoldable pub find : Bytes → List A → Option A
  find k [] = none
  find k (x ∷ xs) = if same_bytes (key x) k then some x else find k xs

  -- `less` of the sources' sorts: the order of the keys.
  abbrev pub less_key : A → A → Bool
  less_key x y = less_bytes (key x) (key y)

  abbrev pub IsDistinct : List A → Type ℓ
  IsDistinct [] = Unit
  IsDistinct (x ∷ xs) = (find (key x) xs ≡ none) × IsDistinct xs

  less_key-asym : (x y : A) → less_key x y ≡ true → less_key y x ≡ false
  less_key-asym x y = less_bytes_asym (key x) (key y)

  find-insert :
      (k : Bytes) (x : A) (xs : List A)
      → find (key x) xs ≡ none
      → find k (insert less_key x xs) ≡ (if same_bytes (key x) k then some x else find k xs)
  unfolding find insert
  find-insert k x [] h = refl
  find-insert k x (y ∷ ys) h =
      ground (
        arith,
        find-insert k x ys,
        same_iff (key y) (key x),
        same_iff (key x) k,
        same_iff (key y) k,
      )

  insert-IsDistinct :
      (x : A) (xs : List A)
      → find (key x) xs ≡ none
      → IsDistinct xs
      → IsDistinct (insert less_key x xs)
  unfolding find insert
  insert-IsDistinct x [] h d = (refl, tt)
  insert-IsDistinct x (y ∷ ys) h (e, d) = elim (Bool-cases (less_key y x)) [
    | inl above ↦ rw above (
      find-insert (key y) x ys (ground arith)
          ∙ ground (arith, same_iff (key y) (key x), same_iff (key x) (key y)),
      insert-IsDistinct x ys (ground arith) d,
    )
    | inr below ↦ rw below (h, (e, d))
  ]

  pub find-sort : (k : Bytes) (xs : List A) → IsDistinct xs → find k (sort less_key xs) ≡ find k xs
  unfolding sort find
  find-sort k [] d = refl
  find-sort k (x ∷ xs) (h, d) =
      find-insert k x (sort less_key xs) (find-sort (key x) xs d ∙ h) ∙ rw (find-sort k xs d) refl

  pub sort-IsDistinct : (xs : List A) → IsDistinct xs → IsDistinct (sort less_key xs)
  unfolding sort
  sort-IsDistinct [] d = d
  sort-IsDistinct (x ∷ xs) (h, d) =
      insert-IsDistinct x (sort less_key xs) (find-sort (key x) xs d ∙ h) (sort-IsDistinct xs d)

  abbrev Below : Bytes → List A → Type 0
  Below k [] = Unit
  Below k (x ∷ xs) = less_bytes k (key x) ≡ true

  next-Below :
      (k : Bytes) (x : A) (xs : List A)
      → less_bytes k (key x) ≡ true
      → IsSorted less_key (x ∷ xs)
      → Below k xs
  next-Below k x [] h s = tt
  next-Below k x (y ∷ ys) h (s, t) = ground (
    arith,
    less_bytes_total (key x) (key y),
    same_eq (key x) (key y),
    less_bytes_trans k (key x) (key y),
  )

  -- In a sorted list, no key below the first is found.
  find-Below : (k : Bytes) (xs : List A) → IsSorted less_key xs → Below k xs → find k xs ≡ none
  unfolding find
  find-Below k [] s b = refl
  find-Below k (x ∷ xs) s b =
      ground (
        arith,
        find-Below k xs s.1 (next-Below k x xs b s),
        same_iff (key x) k,
        less_bytes_irrefl k,
      )

  not_less :
      (x y : A) (xs ys : List A)
      → IsSorted less_key (y ∷ ys)
      → find (key x) (x ∷ xs) ≡ find (key x) (y ∷ ys)
      → less_key x y ≡ false
  unfolding find
  not_less x y xs ys s e = elim (Bool-cases (less_key x y)) [
    | inl less ↦ ground (arith, find-Below (key x) (y ∷ ys) s less, same_refl (key x))
    | inr other ↦ other
  ]

  find_first :
      (k : Bytes) (x : A) (xs : List A) → same_bytes (key x) k ≡ true → find k (x ∷ xs) ≡ some x
  unfolding find
  find_first k x xs h = rw h

  same_heads :
      (x y : A) (xs ys : List A)
      → IsSorted less_key (x ∷ xs)
      → IsSorted less_key (y ∷ ys)
      → ((k : Bytes) → find k (x ∷ xs) ≡ find k (y ∷ ys))
      → x ≡ y
  same_heads x y xs ys s t e =
      let same =
        less_bytes_total (key y) (key x) (not_less y x ys xs s (sym (e (key y))))
          (not_less x y xs ys t (e (key x))) in
      ap (or_else x) (
        sym (find_first (key x) x xs (same_refl (key x)))
        ∙ e (key x)
        ∙ find_first (key x) y ys same)

  same_tails :
      (k : Bytes) (x y : A) (xs ys : List A)
      → x ≡ y
      → find (key x) xs ≡ none
      → find (key y) ys ≡ none
      → find k (x ∷ xs) ≡ find k (y ∷ ys)
      → find k xs ≡ find k ys
  unfolding find
  same_tails k x y xs ys p d f e = elim (Bool-cases (same_bytes (key x) k)) [
    | inl same ↦
        let at : (zs : List A) → find (key x) zs ≡ find k zs =
          λ zs. ap (λ j. find j zs) (same_eq (key x) k same) in
        sym (at xs) ∙ d ∙ sym f ∙ ap (λ z. find (key z) ys) (sym p) ∙ at ys
    | inr other ↦ ground (arith, ap key p)
  ]

  sorted_unique :
      (xs ys : List A)
      → IsSorted less_key xs
      → IsSorted less_key ys
      → IsDistinct xs
      → IsDistinct ys
      → ((k : Bytes) → find k xs ≡ find k ys)
      → xs ≡ ys
  unfolding find
  sorted_unique [] [] s t d f e = refl
  sorted_unique [] (y ∷ ys) s t d f e = ground (arith, e (key y), same_refl (key y))
  sorted_unique (x ∷ xs) [] s t d f e = ground (arith, e (key x), same_refl (key x))
  sorted_unique (x ∷ xs) (y ∷ ys) s t d f e =
      let p = same_heads x y xs ys s t e in
      cc (p, sorted_unique xs ys s.1 t.1 d.1 f.1 (λ k. same_tails k x y xs ys p d.0 f.0 (e k)))

  -- Lists with distinct keys in which every key finds the same are sorted to the same list.
  pub sort_unique :
      (xs ys : List A)
      → IsDistinct xs
      → IsDistinct ys
      → ((k : Bytes) → find k xs ≡ find k ys)
      → sort less_key xs ≡ sort less_key ys
  sort_unique xs ys d f e =
      sorted_unique (sort less_key xs) (sort less_key ys) (sort-IsSorted less_key less_key-asym xs)
        (sort-IsSorted less_key less_key-asym ys) (sort-IsDistinct xs d) (sort-IsDistinct ys f)
        (λ k. find-sort k xs d ∙ e k ∙ sym (find-sort k ys f))
