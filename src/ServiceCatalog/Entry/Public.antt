-- ===== src/ServiceCatalog/Entry/Public.antt =====
-- contracts/servicecatalog/servicecatalog.go: the actions of an entry, and what is published of a text.
use xx_federation_contracts.Base.{
  ◌≡◌, refl, ap, sym, ◌∙◌, String, true, false, ◌||◌, List, [], ◌∷◌, Option, none, some, arith,
  ◌==◌, eq_iff, eq_refl, subst, map, is_empty, Bool-cases, inl, inr,
}
use xx_federation_contracts.Base.Text.{trim_space, trim_left, trim_right, trim_space_idem}
use xx_federation_contracts.Base.Slices.{mem}
use xx_federation_contracts.Base.Exec.{Result, ok, err}
use xx_federation_contracts.Exchange.Topology.{text}
use xx_federation_contracts.ServiceCatalog.Material.{private_material, private_text, public_text}
use xx_federation_contracts.ServiceCatalog.Entry.{
  Catalog, CatalogError, with_action, collect_actions, some_actions, decoded_actions,
  allowed_actions,
}

abbrev IsNodup : List String → Type 0
IsNodup [] = Unit
IsNodup (x ∷ xs) = (mem x xs ≡ false) × IsNodup xs

-- Distinct actions that are the trimmed texts, none of them empty.
abbrev pub IsActions : List String → List String → Type 0
IsActions decoded actions =
    IsNodup actions
    × (mem "" actions ≡ false)
    × ((a : String) → mem a actions ≡ mem a (map trim_space decoded))

collect_step :
    (action : String) (result : Result CatalogError (List String)) (actions : List String)
    → with_action action result ≡ ok actions
    → (more : List String) × (result ≡ ok more) × (action ∷ more ≡ actions)
collect_step action (err e) actions h = ground arith
collect_step action (ok more) actions h = (more, refl, ground arith)

-- What is collected after the actions seen.
abbrev Collected : List String → List String → List String → Type 0
Collected seen decoded actions =
    IsNodup actions
    × (mem "" actions ≡ false)
    × ((a : String) → mem a seen ≡ true → mem a actions ≡ false)
    × ((a : String)
        → (mem a seen || mem a actions) ≡ (mem a seen || mem a (map trim_space decoded)))

mem_at : (x a : String) (seen : List String) → (x == a) ≡ true → mem x seen ≡ mem a seen
mem_at x a seen h = ap (λ y. mem y seen) ((eq_iff x a).0 h)

collect_actions_sound :
    (seen decoded actions : List String)
    → collect_actions seen decoded ≡ ok actions
    → Collected seen decoded actions
unfolding collect_actions
collect_actions_sound seen [] [] h = (tt, refl, λ a k. refl, λ a. refl)
collect_actions_sound seen [] (x ∷ actions) h = ground arith
collect_actions_sound seen (d ∷ decoded) actions h = elim (Bool-cases (mem (trim_space d) seen)) [
  | inl old ↦
      let (n, f, g, e) = collect_actions_sound seen decoded actions (ground arith) in
      (n, f, g, λ a. ground (arith, e a, mem_at (trim_space d) a seen))
  | inr new ↦
      let (more, r, whole) =
        collect_step (trim_space d) (collect_actions (trim_space d ∷ seen) decoded) actions
          (ground arith) in
      let (n, f, g, e) = collect_actions_sound (trim_space d ∷ seen) decoded more r in
      subst (Collected seen (d ∷ decoded)) whole (
        (g (trim_space d) (ground (arith, eq_refl (trim_space d))), n),
        ground (arith, f),
        λ a k. ground (arith, g a, mem_at (trim_space d) a seen),
        λ a. ground (arith, e a),
      )
]

some_actions_sound :
    (result : Result CatalogError (List String)) (actions : List String)
    → some_actions result ≡ ok actions
    → (result ≡ ok actions) × (is_empty actions ≡ false)
some_actions_sound (err e) actions h = ground arith
some_actions_sound (ok []) actions h = ground arith
some_actions_sound (ok (x ∷ xs)) actions h = (h, ground arith)

module _ (catalog : Catalog) where
  decoded_actions_sound :
      (found : Option (List String)) (actions : List String)
      → decoded_actions found ≡ ok actions
      → (decoded : List String) × (found ≡ some decoded)
        × (is_empty actions ≡ false)
        × IsActions decoded actions
  decoded_actions_sound none actions h = ground arith
  decoded_actions_sound (some decoded) actions h =
      let (e, full) = some_actions_sound (collect_actions [] decoded) actions h in
      let (n, f, g, same) = collect_actions_sound [] decoded actions e in
      (decoded, refl, full, (n, f, same))

  -- The actions of an entry are the trimmed texts of its JSON array, each once and none empty, and
  -- there is at least one.
  pub allowed_actions_sound :
      (raw : String) (actions : List String)
      → allowed_actions catalog raw ≡ ok actions
      → (decoded : List String) × (catalog.json_strings (catalog.utf8 (trim_space raw))
          ≡ some decoded)
        × (is_empty actions ≡ false)
        × IsActions decoded actions
  unfolding allowed_actions
  allowed_actions_sound raw actions h =
      decoded_actions_sound (catalog.json_strings (catalog.utf8 (trim_space raw))) actions
        (ground arith)

  blank : private_material catalog.network (text "") ≡ false
  unfolding private_material private_text trim_space trim_left trim_right
  blank = refl

  nothing : public_text catalog.network "" ≡ ""
  unfolding public_text private_material private_text trim_space trim_left trim_right
  nothing = refl

  -- What is published of a text has no private material, and publishing it again changes nothing.
  pub public_text_safe :
      (value : String)
      → (private_material catalog.network (text (public_text catalog.network value)) ≡ false)
        × (public_text catalog.network (public_text catalog.network value)
            ≡ public_text catalog.network value)
  unfolding public_text
  public_text_safe value =
      elim (Bool-cases (private_material catalog.network (text (trim_space value)))) [
        | inl hidden ↦
            let e : published value ≡ "" = rw hidden refl in
            (
              ap (λ t. private_material catalog.network (text t)) e ∙ blank,
              ap published e ∙ nothing ∙ sym e,
            )
        | inr shown ↦
            let e : published value ≡ trim_space value = rw shown refl in
            let again : published (trim_space value) ≡ trim_space value =
              rw (trim_space_idem value) (rw shown refl) in
            (
              ap (λ t. private_material catalog.network (text t)) e ∙ shown,
              ap published e ∙ again ∙ sym e,
            )
      ]
    where
      published : String → String
      published = public_text catalog.network
