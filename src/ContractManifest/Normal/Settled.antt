-- ===== src/ContractManifest/Normal/Settled.antt =====
-- contracts/contractmanifest/manifest.go: when normalising twice is normalising once. Of a slice of
-- blank texts it is not: the first time makes it empty, the second nil.
use xx_federation_contracts.Base.{
  ◌≡◌, refl, ap, ◌∙◌, String, true, false, List, [], ◌∷◌, All, arith, is_empty,
}
use xx_federation_contracts.Base.Text.{trim_space_idem}
use xx_federation_contracts.Base.Sort.{sort, sort_of_IsSorted, sort-IsSorted, sort-All, All-of_sort}
use xx_federation_contracts.Base.Slices.{less_text-asym, normalize_strings, normalize_strings_idem}
use xx_federation_contracts.ContractManifest.Types.{
  Contract, Manifest, Slice, nil_slice, made, elements,
}
use xx_federation_contracts.ContractManifest.Normal.{
  normalize_string_slice, normalize_contract, normalize_each, normalize_contracts,
  normalize_manifest, contract_key, less_contract,
}
use xx_federation_contracts.ContractManifest.Shape.{validate_contract, validate_manifest_shape}
use xx_federation_contracts.ContractManifest.Shape.Valid.{validate_contracts-All}

abbrev IsFilled : Slice → Type 0
IsFilled s = is_empty (elements s) ≡ false

again :
    (xs : List String)
    → is_empty xs ≡ false
    → normalize_string_slice (made xs) ≡ made (normalize_strings xs)
unfolding normalize_string_slice
again [] h = ground arith
again (x ∷ xs) h = refl

pub settled :
    (xs : List String)
    → is_empty (normalize_strings xs) ≡ false
    → normalize_string_slice (made (normalize_strings xs)) ≡ made (normalize_strings xs)
settled xs h = again (normalize_strings xs) h ∙ ap made (normalize_strings_idem xs)

slice_idem :
    (s : Slice)
    → IsFilled (normalize_string_slice s)
    → normalize_string_slice (normalize_string_slice s) ≡ normalize_string_slice s
unfolding normalize_string_slice elements
slice_idem nil_slice h = refl
slice_idem (made []) h = refl
slice_idem (made (x ∷ xs)) h = settled (x ∷ xs) h

IsFilled-before : (s : Slice) → IsFilled (normalize_string_slice s) → IsFilled s
unfolding normalize_string_slice elements
IsFilled-before nil_slice h = h
IsFilled-before (made []) h = h
IsFilled-before (made (x ∷ xs)) h = refl

-- A contract that names a partner link and a method scope.
abbrev IsFull : Contract → Type 0
IsFull c = IsFilled c.allowed_partner_link_ids × IsFilled c.allowed_gateway_method_scopes

IsFull-of_valid : (c : Contract) → validate_contract c ≡ true → IsFull c
unfolding validate_contract
IsFull-of_valid c h = (ground arith, ground arith)

IsFull-before : (c : Contract) → IsFull (normalize_contract c) → IsFull c
unfolding normalize_contract
IsFull-before c (links, scopes) = (
  IsFilled-before c.allowed_partner_link_ids links,
  IsFilled-before c.allowed_gateway_method_scopes scopes,
)

abbrev IsSettled : Contract → Type 0
IsSettled c = IsFull c → normalize_contract c ≡ c

normalize_contract-IsSettled : (c : Contract) → IsSettled (normalize_contract c)
unfolding normalize_contract
normalize_contract-IsSettled c (links, scopes) = simp (
  trim_space_idem,
  normalize_strings_idem,
  slice_idem c.allowed_partner_link_ids links,
  slice_idem c.allowed_gateway_method_scopes scopes,
)

normalize_each-All : (cs : List Contract) → All IsSettled (normalize_each cs)
unfolding normalize_each
normalize_each-All [] = tt
normalize_each-All (c ∷ cs) = (normalize_contract-IsSettled c, normalize_each-All cs)

normalize_each_of_All :
    (cs : List Contract) → All IsSettled cs → All IsFull cs → normalize_each cs ≡ cs
unfolding normalize_each
normalize_each_of_All [] h k = refl
normalize_each_of_All (c ∷ cs) (e, h) (full, k) = cc (e full, normalize_each_of_All cs h k)

IsFull-of_each : (cs : List Contract) → All IsFull (normalize_each cs) → All IsFull cs
unfolding normalize_each
IsFull-of_each [] h = tt
IsFull-of_each (c ∷ cs) (full, h) = (IsFull-before c full, IsFull-of_each cs h)

IsFull-of_All : (cs : List Contract) → All (λ c. validate_contract c ≡ true) cs → All IsFull cs
IsFull-of_All [] h = tt
IsFull-of_All (c ∷ cs) (valid, h) = (IsFull-of_valid c valid, IsFull-of_All cs h)

normalize_contracts_idem :
    (cs : List Contract)
    → All IsFull (normalize_contracts cs)
    → normalize_contracts (normalize_contracts cs) ≡ normalize_contracts cs
unfolding normalize_contracts
normalize_contracts_idem cs full =
    ap (sort less_contract) (
      normalize_each_of_All _
        (sort-All less_contract IsSettled (normalize_each cs) (normalize_each-All cs)) full)
    ∙ sort_of_IsSorted less_contract _ (
        sort-IsSorted less_contract (λ a b. less_text-asym (contract_key a) (contract_key b))
          (normalize_each cs))

shaped-All : (m : Manifest) → validate_manifest_shape m ≡ true → All IsFull m.contracts
unfolding validate_manifest_shape
shaped-All m h = IsFull-of_All m.contracts (validate_contracts-All [] m.contracts (ground arith))

manifest_idem :
    (m : Manifest)
    → All IsFull (normalize_contracts m.contracts)
    → normalize_manifest (normalize_manifest m) ≡ normalize_manifest m
unfolding normalize_manifest
manifest_idem m full = simp (trim_space_idem, normalize_contracts_idem m.contracts full)

-- A manifest whose normal form has a valid shape.
pub normalize_manifest_idem :
    (m : Manifest)
    → validate_manifest_shape (normalize_manifest m) ≡ true
    → normalize_manifest (normalize_manifest m) ≡ normalize_manifest m
unfolding normalize_manifest
normalize_manifest_idem m shaped = manifest_idem m (shaped-All (normalize_manifest m) shaped)

-- A manifest whose normal form, normalised once more, has a valid shape.
pub normalize_manifest_idem_of_twice :
    (m : Manifest)
    → validate_manifest_shape (normalize_manifest (normalize_manifest m)) ≡ true
    → normalize_manifest (normalize_manifest m) ≡ normalize_manifest m
unfolding normalize_manifest normalize_contracts
normalize_manifest_idem_of_twice m shaped = manifest_idem m (
    IsFull-of_each _ (
      All-of_sort less_contract IsFull _
        (shaped-All (normalize_manifest (normalize_manifest m)) shaped)))
