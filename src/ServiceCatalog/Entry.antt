-- ===== src/ServiceCatalog/Entry.antt =====
-- contracts/servicecatalog/servicecatalog.go: states, entries and their checks.
pub mod Public
pub mod Valid
use xx_federation_contracts.Base.{
  String, Bool, true, false, ◌||◌, ◌&&◌, not, List, [], ◌∷◌, Option, none, some, length, ltb, ◌==◌,
  if◌then◌else◌,
}
use xx_federation_contracts.Base.Bytes.{Bytes}
use xx_federation_contracts.Base.Text.{trim_space}
use xx_federation_contracts.Base.Slices.{mem}
use xx_federation_contracts.Base.Exec.{Result, ok, err}
use xx_federation_contracts.Exchange.Topology.{Json, text}
use xx_federation_contracts.OrderToCash.Hosts.{Network}
use xx_federation_contracts.ServiceCatalog.Material.{private_material}

pub record EntryInput : Type 0 where
  pub tenant_id : String
  pub service_catalog_id : String
  pub display_name : String
  pub description : String
  pub service_kind : String
  pub schema_json : String
  pub schema_version : String
  pub allowed_actions_json : String
  pub state : String
  pub replacement_catalog_entry_id : String

abbrev pub state_active : String
state_active = "active"

abbrev pub state_deprecated : String
state_deprecated = "deprecated"

abbrev pub state_retired : String
state_retired = "retired"

-- The errors of the operation `service_catalog`, one for each text.
pub data CatalogError : Type 0 where
  no_tenant no_display_name private_display_name private_description no_service_kind : CatalogError
  no_schema_version no_schema schema_too_large schema_not_json private_schema : CatalogError
  no_actions_json no_actions actions_not_json empty_action bad_state own_replacement : CatalogError

-- What is not under the repository: the bytes of a text, `json.Unmarshal` for targets `any` and
-- `[]string`, and the network functions.
pub record Catalog : Type 0 where
  pub utf8 : String → Bytes
  pub json_value : Bytes → Option Json
  pub json_strings : Bytes → Option (List String)
  pub network : Network

-- `DefaultState`
unfoldable pub default_state : String → String
default_state state =
    let s = trim_space state in
    if s == "" || s == state_active
    then state_active
    else if s == state_deprecated
    then state_deprecated
    else if s == state_retired
    then state_retired
    else s

-- `VisibleState`
unfoldable pub visible_state : String → Bool
unfolding default_state
visible_state state = default_state state == state_active || default_state state == state_deprecated

abbrev pub with_action :
    String → Result CatalogError (List String) → Result CatalogError (List String)
with_action action (err e) = err e
with_action action (ok actions) = ok (action ∷ actions)

-- The loop of `AllowedActions`, with the actions seen so far.
unfoldable pub collect_actions : List String → List String → Result CatalogError (List String)
collect_actions seen [] = ok []
collect_actions seen (a ∷ decoded) =
    let action = trim_space a in
    let skipped = collect_actions seen decoded in
    let kept = with_action action (collect_actions (action ∷ seen) decoded) in
    if action == "" then err empty_action else if mem action seen then skipped else kept

-- `AllowedActions` from its last test on.
abbrev pub some_actions : Result CatalogError (List String) → Result CatalogError (List String)
some_actions (err e) = err e
some_actions (ok []) = err no_actions
some_actions (ok (action ∷ actions)) = ok (action ∷ actions)

abbrev pub decoded_actions : Option (List String) → Result CatalogError (List String)
decoded_actions none = err actions_not_json
decoded_actions (some decoded) = some_actions (collect_actions [] decoded)

module _ (catalog : Catalog) where
  open catalog use {utf8, json_value, json_strings, network}

  -- `AllowedActions`
  unfoldable pub allowed_actions : String → Result CatalogError (List String)
  unfolding collect_actions
  allowed_actions raw =
      if trim_space raw == ""
      then err no_actions_json
      else decoded_actions (json_strings (utf8 (trim_space raw)))

  abbrev pub public_schema : Option Json → Result CatalogError (Unit {0})
  public_schema none = err schema_not_json
  public_schema (some decoded) =
      if private_material network decoded then err private_schema else ok tt

  -- `ValidatePublicSchemaJSON`
  unfoldable pub validate_public_schema_json : String → Result CatalogError (Unit {0})
  unfolding private_material
  validate_public_schema_json raw =
      if trim_space raw == ""
      then err no_schema
      else if ltb 65536 (length (utf8 (trim_space raw)))
      then err schema_too_large
      else public_schema (json_value (utf8 (trim_space raw)))

  -- The tests of `ValidateEntry` on the state.
  unfoldable pub validate_state : EntryInput → Result CatalogError (Unit {0})
  unfolding default_state
  validate_state input =
      let state = default_state input.state in
      if not (state == state_active)
        && not (state == state_deprecated)
        && not (state == state_retired)
      then err bad_state
      else if state == state_deprecated
          && trim_space input.replacement_catalog_entry_id == trim_space input.service_catalog_id
      then err own_replacement
      else ok tt

  abbrev pub after_schema :
      EntryInput
      → Result CatalogError (Unit {0})
      → Result CatalogError (List String)
      → Result CatalogError (Unit {0})
  after_schema input (err e) actions = err e
  after_schema input (ok _) (err e) = err e
  after_schema input (ok _) (ok actions) = validate_state input

  -- `ValidateEntry`
  unfoldable pub validate_entry : EntryInput → Result CatalogError (Unit {0})
  unfolding validate_public_schema_json allowed_actions validate_state private_material
  validate_entry input =
      if trim_space input.tenant_id == ""
      then err no_tenant
      else if trim_space input.display_name == ""
      then err no_display_name
      else if private_material network (text (trim_space input.display_name))
      then err private_display_name
      else if private_material network (text (trim_space input.description))
      then err private_description
      else if trim_space input.service_kind == ""
      then err no_service_kind
      else if trim_space input.schema_version == ""
      then err no_schema_version
      else after_schema input (validate_public_schema_json input.schema_json)
          (allowed_actions input.allowed_actions_json)
