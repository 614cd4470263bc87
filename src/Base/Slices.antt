-- ===== src/Base/Slices.antt =====
-- The lists of texts that the sources normalise: trimmed, without empty texts and repetitions, and
-- in order.
pub mod Described
pub mod Order
use Prim.Native.Char.{code}
use Prim.Native.Nat.{ℕ, Ordering, compare as compare_ℕ}
use Prim.Native.String.{String, [], ◌∷◌, compare}
use Prim.Native.String.compare
use Prim.Native.String.{then as then_order}
use mathlib.Core.List.{List}
use mathlib.Core.Path.{◌≡◌, refl, ap, ◌∙◌, sym}
use mathlib.Core.Bool.{Bool, true, false, ◌||◌}
use mathlib.Core.Logic.{inl, inr}
use native.Mathlib.Omega.{arith}
use text.Mathlib.Text.{is_lt, ◌==◌}
use text.Mathlib.TextEquality.{eq_iff}
use xx_federation_contracts.Base.Lists.{All, any}
use xx_federation_contracts.Base.Sort.{
  insert, sort, sort_of_IsSorted, sort-IsSorted, sort-All, any-insert, any-sort,
}
use xx_federation_contracts.Base.Tests.{if◌then◌else◌, Bool-cases, or-false}
use xx_federation_contracts.Base.Text.{trim_space, trim_space_idem}

-- Go's `s < t`.
abbrev pub less_text : String → String → Bool
less_text s t = is_lt (compare s t)

lt_ℕ-flip : (a b : ℕ) → compare_ℕ a b ≡ Ordering.lt → compare_ℕ b a ≡ Ordering.gt
lt_ℕ-flip a b h = ground arith

eq_ℕ-flip : (a b : ℕ) → compare_ℕ a b ≡ Ordering.eq → compare_ℕ b a ≡ Ordering.eq
eq_ℕ-flip a b h = ground arith

-- The order of two texts whose first characters compare as `o`, and back as `o'`.
then-flip :
    (o o' r r' : Ordering)
    → (o ≡ Ordering.lt → o' ≡ Ordering.gt)
    → (o ≡ Ordering.eq → o' ≡ Ordering.eq)
    → (r ≡ Ordering.lt → r' ≡ Ordering.gt)
    → then_order o r ≡ Ordering.lt
    → then_order o' r' ≡ Ordering.gt
then-flip Ordering.lt o' r r' h k l m = rw (h refl)
then-flip Ordering.eq o' r r' h k l m = rw (k refl) (l m)
then-flip Ordering.gt o' r r' h k l m = cc

lt_text-flip : (s t : String) → compare s t ≡ Ordering.lt → compare t s ≡ Ordering.gt
lt_text-flip [] [] h = cc
lt_text-flip [] (d ∷ t) h = compare.cons-nil d t
lt_text-flip (c ∷ s) [] h = cc (compare.cons-nil c s)
lt_text-flip (c ∷ s) (d ∷ t) h =
    compare.cons-cons d c t s
    ∙ then-flip (compare_ℕ (code c) (code d)) _ (compare s t) _ (lt_ℕ-flip (code c) (code d))
        (eq_ℕ-flip (code c) (code d)) (lt_text-flip s t) (sym (compare.cons-cons c d s t) ∙ h)

pub less_text-asym : (s t : String) → less_text s t ≡ true → less_text t s ≡ false
less_text-asym s t h = ground (arith, lt_text-flip s t)

abbrev pub mem : String → List String → Bool
mem x xs = any (λ y. y == x) xs

-- The loop over `seen` of `normalizeStrings` and `normalizeStringSlice`.
unfoldable pub compact : List String → List String → List String
compact seen List.[] = List.[]
compact seen (List.◌∷◌ v vs) =
    let value = trim_space v in
    let rest = compact seen vs in
    let kept = List.◌∷◌ value (compact (List.◌∷◌ value seen) vs) in
    if value == "" || mem value seen then rest else kept

-- `normalizeStrings`, whose slice is never nil, and `normalizeStringSlice` of a slice with elements.
unfoldable pub normalize_strings : List String → List String
unfolding compact
normalize_strings values = sort less_text (compact List.[] values)

abbrev pub IsClean : String → Type 0
IsClean x = (trim_space x ≡ x) × ((x == "") ≡ false)

abbrev pub IsNodup : List String → Type 0
IsNodup List.[] = Unit
IsNodup (List.◌∷◌ x xs) = (mem x xs ≡ false) × IsNodup xs

unseen_of_cons :
    (v : String) (seen xs : List String)
    → All (λ x. IsClean x × (mem x (List.◌∷◌ v seen) ≡ false)) xs
    → All (λ x. IsClean x × (mem x seen ≡ false)) xs
unseen_of_cons v seen List.[] h = tt
unseen_of_cons v seen (List.◌∷◌ x xs) ((c, m), h) =
    ((c, (or-false _ _ m).1), unseen_of_cons v seen xs h)

fresh_of_cons :
    (v : String) (seen xs : List String)
    → All (λ x. IsClean x × (mem x (List.◌∷◌ v seen) ≡ false)) xs
    → mem v xs ≡ false
fresh_of_cons v seen List.[] h = refl
fresh_of_cons v seen (List.◌∷◌ x xs) ((c, m), h) =
    ground (arith, fresh_of_cons v seen xs h, eq_iff v x, eq_iff x v)

pub compact-All :
    (seen xs : List String) → All (λ x. IsClean x × (mem x seen ≡ false)) (compact seen xs)
unfolding compact
compact-All seen List.[] = tt
compact-All seen (List.◌∷◌ v vs) =
    elim (Bool-cases (trim_space v == "" || mem (trim_space v) seen)) [
      | inl skip ↦ rw skip (compact-All seen vs)
      | inr keep ↦
          let (full, new) = or-false _ _ keep in
          let rest = compact-All (List.◌∷◌ (trim_space v) seen) vs in
          rw keep (((trim_space_idem v, full), new), unseen_of_cons (trim_space v) seen _ rest)
    ]

pub compact-IsNodup : (seen xs : List String) → IsNodup (compact seen xs)
unfolding compact
compact-IsNodup seen List.[] = tt
compact-IsNodup seen (List.◌∷◌ v vs) =
    elim (Bool-cases (trim_space v == "" || mem (trim_space v) seen)) [
      | inl skip ↦ rw skip (compact-IsNodup seen vs)
      | inr keep ↦
          let seen' = List.◌∷◌ (trim_space v) seen in
          rw keep (
            fresh_of_cons (trim_space v) seen (compact seen' vs) (compact-All seen' vs),
            compact-IsNodup seen' vs,
          )
    ]

insert-IsNodup :
    (x : String) (ys : List String)
    → mem x ys ≡ false
    → IsNodup ys
    → IsNodup (insert less_text x ys)
unfolding insert
insert-IsNodup x List.[] h k = (refl, tt)
insert-IsNodup x (List.◌∷◌ y ys) h (fresh, k) = elim (Bool-cases (less_text y x)) [
  | inl above ↦ rw above (
    any-insert less_text (λ z. z == y) x ys ∙ ground (arith, eq_iff x y, eq_iff y x),
    insert-IsNodup x ys (or-false _ _ h).1 k,
  )
  | inr below ↦ rw below (h, (fresh, k))
]

pub sort-IsNodup : (xs : List String) → IsNodup xs → IsNodup (sort less_text xs)
unfolding sort
sort-IsNodup List.[] h = tt
sort-IsNodup (List.◌∷◌ x xs) (fresh, h) =
    insert-IsNodup x (sort less_text xs) (any-sort less_text (λ z. z == x) xs ∙ fresh)
      (sort-IsNodup xs h)

seen_too :
    (v : String) (seen xs : List String)
    → All (λ x. IsClean x × (mem x seen ≡ false)) xs
    → mem v xs ≡ false
    → All (λ x. IsClean x × (mem x (List.◌∷◌ v seen) ≡ false)) xs
seen_too v seen List.[] h k = tt
seen_too v seen (List.◌∷◌ x xs) ((c, m), h) k =
    ((c, ground (arith, eq_iff v x, eq_iff x v)), seen_too v seen xs h (or-false _ _ k).1)

-- A list of clean texts without repetitions, none of them seen, is kept whole.
compact_of_IsNodup :
    (seen xs : List String)
    → All (λ x. IsClean x × (mem x seen ≡ false)) xs
    → IsNodup xs
    → compact seen xs ≡ xs
unfolding compact
compact_of_IsNodup seen List.[] h k = refl
compact_of_IsNodup seen (List.◌∷◌ x xs) (((trimmed, full), new), h) (fresh, k) =
    rw (trimmed, full, new)
      (ap (λ r. List.◌∷◌ x r)
        (compact_of_IsNodup (List.◌∷◌ x seen) xs (seen_too x seen xs h fresh) k))

pub normalize_strings_idem :
    (xs : List String) → normalize_strings (normalize_strings xs) ≡ normalize_strings xs
unfolding normalize_strings
normalize_strings_idem xs =
    ap (sort less_text) (
      compact_of_IsNodup List.[] (sort less_text (compact List.[] xs))
        (sort-All less_text _ (compact List.[] xs) (compact-All List.[] xs))
        (sort-IsNodup (compact List.[] xs) (compact-IsNodup List.[] xs)))
    ∙ sort_of_IsSorted less_text _ (sort-IsSorted less_text less_text-asym (compact List.[] xs))
