-- ===== src/Base/Slices/Described.antt =====
-- The loops `normalizeStrings` and `normalizeStringSlice`, against what their result is.
use xx_federation_contracts.Base.{
  ◌≡◌, ap, ◌∙◌, String, true, false, ◌&&◌, ◌||◌, not, List, [], ◌∷◌, All, map, inl, inr, Bool-cases,
  arith, ◌==◌, eq_iff,
}
use xx_federation_contracts.Base.Sort.{IsSorted, sort-IsSorted, sort-All, any-sort}
use xx_federation_contracts.Base.Text.{trim_space}
use xx_federation_contracts.Base.Slices.{
  less_text, less_text-asym, mem, compact, normalize_strings, IsClean, IsNodup, compact-All,
  compact-IsNodup, sort-IsNodup,
}

-- A list is normal for another one: it is sorted and without repetitions, its texts are trimmed and
-- not empty, and a text is in it exactly if it is not empty and one of the other's trimmed texts.
abbrev pub IsNormalOf : List String → List String → Type 0
IsNormalOf xs ys =
    IsSorted less_text ys
    × IsNodup ys
    × All IsClean ys
    × ((x : String) → mem x ys ≡ (not (x == "") && mem x (map trim_space xs)))

cleaned : (seen xs : List String) → All (λ x. IsClean x × (mem x seen ≡ false)) xs → All IsClean xs
cleaned seen [] h = tt
cleaned seen (x ∷ xs) ((c, m), h) = (c, cleaned seen xs h)

mem_eq : (x y : String) (seen : List String) → (y == x) ≡ true → mem y seen ≡ mem x seen
mem_eq x y seen h = ap (λ z. mem z seen) ((eq_iff y x).0 h)

mem-compact :
    (x : String) (seen xs : List String)
    → mem x (compact seen xs) ≡ (not (mem x seen) && (not (x == "") && mem x (map trim_space xs)))
unfolding compact
mem-compact x seen [] = ground arith
mem-compact x seen (v ∷ vs) = elim (Bool-cases (trim_space v == "" || mem (trim_space v) seen)) [
  | inl skip ↦ rw skip (
      ground (
        arith,
        mem-compact x seen vs,
        mem_eq x (trim_space v) seen,
        eq_iff (trim_space v) x,
        eq_iff (trim_space v) "",
        eq_iff x "",
      ))
  | inr keep ↦ rw keep (
      ground (
        arith,
        mem-compact x (trim_space v ∷ seen) vs,
        mem_eq x (trim_space v) seen,
        eq_iff (trim_space v) x,
        eq_iff (trim_space v) "",
        eq_iff x "",
      ))
]

-- For every list of texts, what normalising makes of it is sorted and without repetitions, its texts
-- are trimmed and not empty, and a text is in it exactly if it is not empty and one of the list's
-- trimmed texts.
pub normalize_strings-IsNormalOf : (xs : List String) → IsNormalOf xs (normalize_strings xs)
unfolding normalize_strings
normalize_strings-IsNormalOf xs = (
  sort-IsSorted less_text less_text-asym (compact [] xs),
  sort-IsNodup (compact [] xs) (compact-IsNodup [] xs),
  sort-All less_text IsClean (compact [] xs) (cleaned [] _ (compact-All [] xs)),
  λ x. any-sort less_text (λ y. y == x) (compact [] xs) ∙ mem-compact x [] xs,
)
