-- ===== src/MembershipCap/Assembly/Freshest.antt =====
-- membershipcap/assemble.go: which claim of a key the loop over the claims leaves.
use mathlib.Core.List.{Memᴰ}
use xx_federation_contracts.Base.{
  ◌≡◌, refl, ap, sym, ◌∙◌, inl, inr, true, false, List, [], ◌∷◌, All, arith, if-holds, Bool-cases,
  Option, none, some, if◌then◌else◌,
}
use xx_federation_contracts.Base.Bytes.{
  Bytes, same_bytes, less_bytes, same_iff, less_bytes_irrefl, less_bytes_trans, less_bytes_asym,
  less_bytes_total,
}
use xx_federation_contracts.Base.Keyed.{find, IsDistinct}
use xx_federation_contracts.MembershipCap.Types.{MeshRegistrationClaim}
use xx_federation_contracts.MembershipCap.Roster.{mem_bytes}
use xx_federation_contracts.MembershipCap.Assembly.{claim_key, stays, keep, gather}

not_less_trans :
    (xs ys zs : Bytes)
    → less_bytes xs ys ≡ false
    → less_bytes ys zs ≡ false
    → less_bytes xs zs ≡ false
not_less_trans xs ys zs h k = elim (Bool-cases (less_bytes xs zs)) [
  | inl less ↦ elim (Bool-cases (less_bytes zs ys)) [
    | inl above ↦ ground (arith, less_bytes_trans xs zs ys)
    | inr other ↦
        let same = (same_iff ys zs).0 (less_bytes_total ys zs k other) in
        ap (less_bytes xs) (sym same) ∙ h
  ]
  | inr other ↦ other
]

pub stays_refl : (a : MeshRegistrationClaim) → stays a a ≡ true
unfolding stays
stays_refl a = ground (arith, less_bytes_irrefl a.proof_of_possession)

pub stays_trans :
    (a b c : MeshRegistrationClaim) → stays a b ≡ true → stays b c ≡ true → stays a c ≡ true
unfolding stays
stays_trans a b c h k =
    ground (arith, not_less_trans a.proof_of_possession b.proof_of_possession c.proof_of_possession)

-- Of two claims, the one that the loop does not replace or the one that it does is first.
pub stays_total : (a b : MeshRegistrationClaim) → stays a b ≡ false → stays b a ≡ true
unfolding stays
stays_total a b h = ground (arith, less_bytes_asym a.proof_of_possession b.proof_of_possession)

-- No claim has the key; or the one given has, is among them, and stays before each that has.
abbrev pub IsFreshest : Bytes → List MeshRegistrationClaim → Option MeshRegistrationClaim → Type 0
IsFreshest k claims none = All (λ c. same_bytes (claim_key c) k ≡ false) claims
IsFreshest k claims (some w) =
    Memᴰ w claims
    × (same_bytes (claim_key w) k ≡ true)
    × All (λ c. same_bytes (claim_key c) k ≡ true → stays w c ≡ true) claims

-- The claim that stays of the one before and a new one.
abbrev winner : Option MeshRegistrationClaim → MeshRegistrationClaim → Option MeshRegistrationClaim
winner none c = some c
winner (some prev) c = some (if stays prev c then prev else c)

find-keep :
    (k : Bytes) (c : MeshRegistrationClaim) (latest : List MeshRegistrationClaim)
    → find claim_key k (keep c latest) ≡ (
        if same_bytes (claim_key c) k
        then winner (find claim_key k latest) c
        else find claim_key k latest)
unfolding find keep
find-keep k c [] = refl
find-keep k c (prev ∷ latest) = ground (
  arith,
  find-keep k c latest,
  same_iff (claim_key prev) (claim_key c),
  same_iff (claim_key c) k,
  same_iff (claim_key prev) k,
)

keep-IsDistinct :
    (c : MeshRegistrationClaim) (latest : List MeshRegistrationClaim)
    → IsDistinct claim_key latest
    → IsDistinct claim_key (keep c latest)
unfolding find keep
keep-IsDistinct c [] d = (refl, tt)
keep-IsDistinct c (prev ∷ latest) (h, d) =
    elim (Bool-cases (same_bytes (claim_key prev) (claim_key c))) [
      | inl same ↦ elim (Bool-cases (stays prev c)) [
        | inl first ↦ rw (same, first) (h, d)
        | inr other ↦
            rw (same, other)
              (ap (λ k. find claim_key k latest) (sym ((same_iff _ _).0 same)) ∙ h, d)
      ]
      | inr other ↦ rw other (
        find-keep (claim_key prev) c latest
            ∙ ground (
              arith,
              same_iff (claim_key prev) (claim_key c),
              same_iff (claim_key c) (claim_key prev),
            ),
        keep-IsDistinct c latest d,
      )
    ]

pub gather-IsDistinct :
    (tomb : List Bytes) (latest claims : List MeshRegistrationClaim)
    → IsDistinct claim_key latest
    → IsDistinct claim_key (gather tomb latest claims)
unfolding gather
gather-IsDistinct tomb latest [] d = d
gather-IsDistinct tomb latest (c ∷ claims) d =
    gather-IsDistinct tomb (if mem_bytes (claim_key c) tomb then latest else keep c latest) claims (
      if-holds (IsDistinct claim_key) (mem_bytes (claim_key c) tomb) d (keep-IsDistinct c latest d))

-- What the loop leaves of one key: the winner of its claims.
freshest :
    Bytes → Option MeshRegistrationClaim → List MeshRegistrationClaim → Option MeshRegistrationClaim
freshest k best [] = best
freshest k best (c ∷ claims) =
    freshest k (if same_bytes (claim_key c) k then winner best c else best) claims

find-gather :
    (k : Bytes) (tomb : List Bytes) (latest claims : List MeshRegistrationClaim)
    → find claim_key k (gather tomb latest claims) ≡ (
        if mem_bytes k tomb
        then find claim_key k latest
        else freshest k (find claim_key k latest) claims)
unfolding gather freshest
find-gather k tomb latest [] = ground arith
find-gather k tomb latest (c ∷ claims) =
    let at : same_bytes (claim_key c) k ≡ true → mem_bytes (claim_key c) tomb ≡ mem_bytes k tomb =
      λ same. ap (λ j. mem_bytes j tomb) ((same_iff _ _).0 same) in
    elim (Bool-cases (mem_bytes (claim_key c) tomb)) [
      | inl dead ↦ rw dead (find-gather k tomb latest claims ∙ ground (arith, at))
      | inr alive ↦ rw alive (
          find-gather k tomb (keep c latest) claims
          ∙ rw (find-keep k c latest) (ground (arith, at)))
    ]

-- A claim that `q` stays before changes nothing.
add_second :
    (k : Bytes) (q x : MeshRegistrationClaim) (claims : List MeshRegistrationClaim)
    (best : Option MeshRegistrationClaim)
    → same_bytes (claim_key q) k ≡ true
    → (same_bytes (claim_key x) k ≡ true → stays q x ≡ true)
    → IsFreshest k (q ∷ claims) best
    → IsFreshest k (q ∷ x ∷ claims) best
add_second k q x claims none s hx (h, hs) = ground arith
add_second k q x claims (some w) s hx (m, sw, (hq, hs)) =
    (later m, sw, (hq, (λ sx. stays_trans w q x (hq s) (hx sx), hs)))
  where
    later : Memᴰ w (q ∷ claims) → Memᴰ w (q ∷ x ∷ claims)
    later (Memᴰ.head e) = Memᴰ.head e
    later (Memᴰ.tail t) = Memᴰ.tail (Memᴰ.tail t)

swap_first :
    (k : Bytes) (q x : MeshRegistrationClaim) (claims : List MeshRegistrationClaim)
    (best : Option MeshRegistrationClaim)
    → IsFreshest k (q ∷ x ∷ claims) best
    → IsFreshest k (x ∷ q ∷ claims) best
swap_first k q x claims none (a, (b, hs)) = (b, (a, hs))
swap_first k q x claims (some w) (m, sw, (a, (b, hs))) = (swapped m, sw, (b, (a, hs)))
  where
    swapped : Memᴰ w (q ∷ x ∷ claims) → Memᴰ w (x ∷ q ∷ claims)
    swapped (Memᴰ.head e) = Memᴰ.tail (Memᴰ.head e)
    swapped (Memᴰ.tail (Memᴰ.head e)) = Memᴰ.head e
    swapped (Memᴰ.tail (Memᴰ.tail t)) = Memᴰ.tail (Memᴰ.tail t)

-- The winner of the claims before, `p`, is as good as they are.
freshest_after :
    (k : Bytes) (p : MeshRegistrationClaim) (claims : List MeshRegistrationClaim)
    → same_bytes (claim_key p) k ≡ true
    → IsFreshest k (p ∷ claims) (freshest k (some p) claims)
unfolding freshest
freshest_after k p [] s = (Memᴰ.head refl, s, (λ _. stays_refl p, tt))
freshest_after k p (c ∷ claims) s = elim (Bool-cases (same_bytes (claim_key c) k)) [
  | inr other ↦
      rw other (add_second k p c claims _ s (λ t. ground arith) (freshest_after k p claims s))
  | inl same ↦ elim (Bool-cases (stays p c)) [
    | inl first ↦
        rw (same, first) (add_second k p c claims _ s (λ _. first) (freshest_after k p claims s))
    | inr later ↦
        rw (same, later)
          (swap_first k c p claims _ (
            add_second k c p claims _ same (λ _. stays_total p c later)
              (freshest_after k c claims same)))
  ]
]

freshest-IsFreshest :
    (k : Bytes) (claims : List MeshRegistrationClaim) → IsFreshest k claims (freshest k none claims)
unfolding freshest
freshest-IsFreshest k [] = tt
freshest-IsFreshest k (c ∷ claims) = elim (Bool-cases (same_bytes (claim_key c) k)) [
  | inl same ↦ rw same (freshest_after k c claims same)
  | inr other ↦ rw other (add_other (freshest k none claims) other (freshest-IsFreshest k claims))
]
  where
    add_other :
        (best : Option MeshRegistrationClaim)
        → same_bytes (claim_key c) k ≡ false
        → IsFreshest k claims best
        → IsFreshest k (c ∷ claims) best
    add_other none o h = (o, h)
    add_other (some w) o (m, s, hs) = (Memᴰ.tail m, s, (λ t. ground arith, hs))

-- The claim that the loop over the claims leaves of a key: none if the key is a tombstone, and else
-- a freshest one.
pub gather-IsFreshest :
    (k : Bytes) (tomb : List Bytes) (claims : List MeshRegistrationClaim)
    → mem_bytes k tomb ≡ false
    → IsFreshest k claims (find claim_key k (gather tomb [] claims))
unfolding find
gather-IsFreshest k tomb claims alive =
    rw (find-gather k tomb [] claims, alive) (freshest-IsFreshest k claims)

pub gather_tombstone :
    (k : Bytes) (tomb : List Bytes) (claims : List MeshRegistrationClaim)
    → mem_bytes k tomb ≡ true
    → find claim_key k (gather tomb [] claims) ≡ none
unfolding find
gather_tombstone k tomb claims dead = rw (find-gather k tomb [] claims, dead) refl
