-- ===== src/ServiceCatalog/Entry/Valid.antt =====
-- contracts/servicecatalog/servicecatalog.go: what `ValidateEntry` accepts.
use xx_federation_contracts.Base.{
  ◌≡◌, refl, ap, sym, ◌∙◌, ◌↔◌, ◌≤◌, String, true, false, ◌||◌, List, [], ◌∷◌, Option, none, some,
  arith, ◌==◌, eq_refl, map, is_empty, length, All, Bool-cases, inl, inr,
}
use xx_federation_contracts.Base.Maps.{or_else}
use xx_federation_contracts.Base.Text.{trim_space, filled}
use xx_federation_contracts.Base.Slices.{mem}
use xx_federation_contracts.Base.Exec.{Result, ok, err}
use xx_federation_contracts.Exchange.Topology.{Json, text}
use xx_federation_contracts.ServiceCatalog.Material.{private_material}
use xx_federation_contracts.ServiceCatalog.Entry.{
  EntryInput, Catalog, CatalogError, state_deprecated, state_retired, default_state, visible_state,
  with_action, collect_actions, some_actions, allowed_actions, public_schema,
  validate_public_schema_json, validate_state, after_schema, validate_entry,
}
use xx_federation_contracts.ServiceCatalog.Entry.Public.{IsActions, allowed_actions_sound}

abbrev IsNamed : String → Type 0
IsNamed s = filled (trim_space s) ≡ true

collect_total :
    (seen decoded : List String)
    → All IsNamed decoded
    → (actions : List String) × (collect_actions seen decoded ≡ ok actions)
unfolding collect_actions
collect_total seen [] h = ([], refl)
collect_total seen (d ∷ decoded) (n, h) = elim (Bool-cases (mem (trim_space d) seen)) [
  | inl old ↦
      let (actions, e) = collect_total seen decoded h in (actions, ground (arith, n, old, e))
  | inr new ↦
      let (actions, e) = collect_total (trim_space d ∷ seen) decoded h in
      let kept : with_action (trim_space d) (collect_actions (trim_space d ∷ seen) decoded)
          ≡ ok (trim_space d ∷ actions) =
        rw e refl in
      (trim_space d ∷ actions, ground (arith, n, new, kept))
]

collected_some :
    (decoded : List String)
    → is_empty decoded ≡ false
    → All IsNamed decoded
    → (actions : List String) × (some_actions (collect_actions [] decoded) ≡ ok actions)
unfolding collect_actions
collected_some [] full h = ground arith
collected_some (d ∷ decoded) full (n, h) =
    let (actions, e) = collect_total (trim_space d ∷ []) decoded h in
    let named : (trim_space d == "") ≡ false = ground (arith, n) in
    (trim_space d ∷ actions, rw (named, e) refl)

IsNamed-texts :
    (decoded : List String) → mem "" (map trim_space decoded) ≡ false → All IsNamed decoded
IsNamed-texts [] h = tt
IsNamed-texts (d ∷ decoded) h = (ground (arith, h), IsNamed-texts decoded (ground (arith, h)))

decoded_some :
    (decoded actions : List String)
    → IsActions decoded actions
    → is_empty actions ≡ false
    → is_empty decoded ≡ false
decoded_some (d ∷ decoded) actions h full = refl
decoded_some [] [] h full = full
decoded_some [] (x ∷ actions) (n, f, same) full = ground (arith, same x, eq_refl x)

module _ (catalog : Catalog) where
  -- JSON that is not too long, in which no private material is found.
  abbrev pub IsPublicSchema : String → Type 0
  IsPublicSchema raw =
      IsNamed raw
      × (length (catalog.utf8 (trim_space raw)) ≤ 65536)
      × ((decoded : Json) × (catalog.json_value (catalog.utf8 (trim_space raw)) ≡ some decoded)
          × (private_material catalog.network decoded ≡ false))

  -- A JSON array of at least one text, none of them blank.
  abbrev pub IsActionArray : String → Type 0
  IsActionArray raw =
      IsNamed raw
      × ((decoded : List String) × (catalog.json_strings (catalog.utf8 (trim_space raw))
            ≡ some decoded)
          × (is_empty decoded ≡ false)
          × All IsNamed decoded)

  -- A state that is visible or retired, and not deprecated in favour of the entry itself.
  abbrev pub HasState : EntryInput → Type 0
  HasState input =
      ((visible_state input.state || default_state input.state == state_retired) ≡ true)
      × ((default_state input.state == state_deprecated) ≡ true
          → (trim_space input.replacement_catalog_entry_id == trim_space input.service_catalog_id)
            ≡ false)

  abbrev pub IsPublishable : EntryInput → Type 0
  IsPublishable input =
      IsNamed input.tenant_id
      × IsNamed input.display_name
      × IsNamed input.service_kind
      × IsNamed input.schema_version
      × (private_material catalog.network (text (trim_space input.display_name)) ≡ false)
      × (private_material catalog.network (text (trim_space input.description)) ≡ false)
      × IsPublicSchema input.schema_json
      × IsActionArray input.allowed_actions_json
      × HasState input

  public_schema_iff :
      (found : Option Json)
      → (public_schema catalog found ≡ ok tt) ↔ (
          (decoded : Json) × (found ≡ some decoded)
          × (private_material catalog.network decoded ≡ false))
  public_schema_iff none = (λ h. ground arith, λ (d, e, p). ground (arith, e))
  public_schema_iff (some decoded) = (
    λ h. (decoded, refl, ground (arith, h)),
    λ (d, e, p).
        let same : private_material catalog.network decoded ≡ false =
          ap (λ o. private_material catalog.network (or_else decoded o)) e ∙ p in
        rw same refl,
  )

  schema_iff :
      (raw : String) → (validate_public_schema_json catalog raw ≡ ok tt) ↔ IsPublicSchema raw
  unfolding validate_public_schema_json
  schema_iff raw =
      let (there, back) = public_schema_iff (catalog.json_value (catalog.utf8 (trim_space raw))) in
      (
        λ h. (ground arith, ground arith, there (ground arith)),
        λ (n, s, d). ground (arith, n, s, back d),
      )

  actions_iff :
      (raw : String)
      → ((actions : List String) × (allowed_actions catalog raw ≡ ok actions)) ↔ IsActionArray raw
  unfolding allowed_actions
  actions_iff raw = (
    λ (actions, h).
        let (decoded, e, full, (n, f, same)) = allowed_actions_sound catalog raw actions h in
        (
          ground (arith, h),
          (
            decoded,
            e,
            decoded_some decoded actions (n, f, same) full,
            IsNamed-texts decoded (sym (same "") ∙ f),
          ),
        ),
    λ (n, (decoded, e, full, h)).
        let (actions, g) = collected_some decoded full h in
        let named : (trim_space raw == "") ≡ false = ground (arith, n) in
        (actions, rw (named, e) g),
  )

  after_schema_iff :
      (input : EntryInput) (schema : Result CatalogError (Unit {0}))
      (actions : Result CatalogError (List String))
      → (after_schema catalog input schema actions ≡ ok tt) ↔ (
          (schema ≡ ok tt)
          × ((list : List String) × (actions ≡ ok list))
          × (validate_state catalog input ≡ ok tt))
  after_schema_iff input (err e) actions = (λ h. ground arith, λ (a, b, c). ground (arith, a))
  after_schema_iff input (ok tt) (err e) =
      (λ h. ground arith, λ (a, (list, b), c). ground (arith, b))
  after_schema_iff input (ok tt) (ok list) = (λ h. (refl, (list, refl), h), λ (a, b, c). c)

  state_iff : (input : EntryInput) → (validate_state catalog input ≡ ok tt) ↔ HasState input
  unfolding validate_state visible_state
  state_iff input =
      (λ h. (ground (arith, h), λ d. ground (arith, h, d)), λ (v, r). ground (arith, v, r))

  -- `ValidateEntry` accepts an entry exactly if its tenant, name, kind and schema version are not
  -- blank; its name and description have no private material; its schema is JSON of at most 65536
  -- bytes without private material; its actions are a JSON array of at least one text, none of them
  -- blank; and its state is active, deprecated or retired, and if it is deprecated, its replacement
  -- is not itself.
  pub validate_entry_iff :
      (input : EntryInput) → (validate_entry catalog input ≡ ok tt) ↔ IsPublishable input
  unfolding validate_entry
  validate_entry_iff input =
      let (there, back) =
        after_schema_iff input (validate_public_schema_json catalog input.schema_json)
          (allowed_actions catalog input.allowed_actions_json) in
      (
        λ h.
            let (a, b, c) = there (ground arith) in
            (
              ground arith,
              ground arith,
              ground arith,
              ground arith,
              ground arith,
              ground arith,
              (schema_iff input.schema_json).0 a,
              (actions_iff input.allowed_actions_json).0 b,
              (state_iff input).0 c,
            ),
        λ (t, n, k, v, p, d, schema, actions, state).
            let rest = back (
              (schema_iff input.schema_json).1 schema,
              (actions_iff input.allowed_actions_json).1 actions,
              (state_iff input).1 state,
            ) in
            ground (arith, t, n, k, v, p, d, rest),
      )
