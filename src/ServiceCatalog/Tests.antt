-- ===== src/ServiceCatalog/Tests.antt =====
-- contracts/servicecatalog/servicecatalog.go: one entry.
use xx_federation_contracts.Base.{
  String, ◌≡◌, refl, false, List, [], ◌∷◌, none, some, ◌↔◌, is_empty,
}
use xx_federation_contracts.Base.Codes.{codes}
use xx_federation_contracts.Base.Cut.{cut, contains}
use xx_federation_contracts.Base.Exec.{ok}
use xx_federation_contracts.Base.Text.{trim_space, trim_left, trim_right, is_space}
use xx_federation_contracts.Exchange.Payload.{fold}
use xx_federation_contracts.Exchange.Topology.{
  object, end, to_lower, contains_text, has_prefix, same_codes,
}
use xx_federation_contracts.OrderToCash.Hosts.{
  bracketed, has_suffix, trim_brackets, trim_brackets_left, trim_brackets_right,
}
use xx_federation_contracts.ServiceCatalog.Material.{
  private_material, private_text, secret_like_value, catalog_host, private_host_name,
}
use xx_federation_contracts.ServiceCatalog.Entry.{
  EntryInput, Catalog, default_state, collect_actions, allowed_actions, validate_public_schema_json,
  validate_state, validate_entry,
}
use xx_federation_contracts.ServiceCatalog.Entry.Public.{IsActions, allowed_actions_sound}
use xx_federation_contracts.ServiceCatalog.Entry.Valid.{IsPublishable, validate_entry_iff}

abbrev catalog : Catalog
catalog = record {
  utf8 = codes;
  json_value = λ bytes. some (object end);
  json_strings = λ bytes. some (" reach" ∷ "reach" ∷ []);
  network = record {
    url_host = λ value. none;
    split_host_port = λ host. none;
    is_private_ip = λ host. false;
    ipv4_matches = λ value. [];
  };
}

abbrev entry : EntryInput
entry = record {
  tenant_id = "t";
  service_catalog_id = "s";
  display_name = " Quotes";
  description = "";
  service_kind = "k";
  schema_json = "{}";
  schema_version = "1";
  allowed_actions_json = "[]";
  state = "";
  replacement_catalog_entry_id = "";
}

abbrev reach : List String
reach = "reach" ∷ []

actions_read : allowed_actions catalog "[]" ≡ ok reach
unfolding allowed_actions collect_actions trim_space trim_left trim_right is_space
actions_read = refl

allowed_actions_sound_example :
    (decoded : List String) × (catalog.json_strings (catalog.utf8 (trim_space "[]")) ≡ some decoded)
    × (is_empty reach ≡ false)
    × IsActions decoded reach
allowed_actions_sound_example = allowed_actions_sound catalog "[]" reach actions_read

entry_valid_test : validate_entry catalog entry ≡ ok tt
unfolding validate_entry validate_public_schema_json allowed_actions validate_state collect_actions
    default_state codes private_material private_text secret_like_value catalog_host
    private_host_name bracketed has_suffix trim_brackets trim_brackets_left trim_brackets_right cut
    contains fold to_lower contains_text has_prefix same_codes trim_space trim_left trim_right
    is_space
entry_valid_test = refl

validate_entry_iff_example : (validate_entry catalog entry ≡ ok tt) ↔ IsPublishable catalog entry
validate_entry_iff_example = validate_entry_iff catalog entry
