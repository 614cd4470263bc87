-- ===== src/OrderToCash/Payload.antt =====
-- contracts/contractpacks/ordertocash/pack.go: the check of a payload against its contract.
pub mod Accepted
use xx_federation_contracts.Base.{
  ℕ, String, Bool, true, false, ◌&&◌, ◌||◌, not, List, [], ◌∷◌, Option, none, some, ◌==◌,
  if◌then◌else◌,
}
use xx_federation_contracts.Base.Maps.{is_some, or_else}
use xx_federation_contracts.Base.Bytes.{Bytes}
use xx_federation_contracts.Base.Text.{trim_space}
use xx_federation_contracts.Base.Hex.{hex}
use xx_federation_contracts.Base.Exec.{Result, ok, err}
use xx_federation_contracts.Exchange.Names.{
  action_open_federation_transaction, facade_open_federation_transaction,
}
use xx_federation_contracts.Exchange.Types.{PayloadValidationInput}
use xx_federation_contracts.Exchange.Topology.{
  Json, Items, Fields, null, bool, number, text, array, object, nil, cons, end, field,
}
use xx_federation_contracts.OrderToCash.Interactions.{Interaction, interactions}
use xx_federation_contracts.OrderToCash.Hosts.{Network, private_fields}

abbrev pub contract_version : String
contract_version = "1.0.0"

-- The errors of the operation `order_to_cash_contract`, one for each text.
pub data PayloadError : Type 0 where
  not_in_pack version_unsupported schema_mismatch not_narrowed : PayloadError
  not_object kind_mismatch no_subject bad_schema private_topology : PayloadError
  missing_property unsupported_property mistyped_property : PayloadError

-- What is not under the repository: SHA-256, the bytes of a text, `json.Unmarshal` for a target
-- `map[string]any`, of which a range has the order of the fields here, and whether a JSON number is
-- its own `math.Trunc`.
pub record Pack : Type 0 where
  pub sha256 : Bytes → Bytes
  pub utf8 : String → Bytes
  pub json_object : Bytes → Option Fields
  pub is_integral : String → Bool
  pub network : Network

-- `object[key]`
unfoldable pub get : String → Fields → Option Json
get key end = none
get key (field k v fields) = if k == key then some v else get key fields

-- `stringValue`
unfoldable pub string_value : Option Json → String
string_value (some (text s)) = s
string_value _ = ""

-- `value.([]any)`, nil where it is none.
abbrev pub items_of : Option Json → Items
items_of (some (array items)) = items
items_of _ = nil

-- `value.(map[string]any)`
abbrev pub fields_of : Option Json → Option Fields
fields_of (some (object fields)) = some fields
fields_of _ = none

-- `interactionByContractID` of the trimmed identifier.
unfoldable pub find_interaction : String → List Interaction → Option Interaction
find_interaction contract_id [] = none
find_interaction contract_id (i ∷ is) =
    if i.contract_id == contract_id then some i else find_interaction contract_id is

-- `interactionByContractID`
unfoldable pub interaction_by_contract_id : String → Option Interaction
unfolding find_interaction
interaction_by_contract_id contract_id = find_interaction (trim_space contract_id) interactions

-- The loop over the schema's required properties.
unfoldable pub check_required : Items → Fields → Result PayloadError (Unit {0})
unfolding get
check_required nil payload = ok tt
check_required (cons (text key) items) payload =
    let more = check_required items payload in
    if trim_space key == ""
    then err bad_schema
    else if not (is_some (get key payload))
    then err missing_property
    else more
check_required (cons item items) payload = err bad_schema

-- `additionalProperties` is there and false.
unfoldable pub is_closed : Option Json → Bool
is_closed (some (bool b)) = not b
is_closed _ = false

module _ (pack : Pack) where
  open pack use {sha256, utf8, json_object, is_integral, network}

  -- `PayloadSchemaHash` of what `PayloadSchema` finds.
  abbrev pub schema_hash_of : Option Interaction → String
  schema_hash_of none = ""
  schema_hash_of (some i) = hex (sha256 (utf8 i.schema_json))

  -- `PayloadSchemaHash`
  unfoldable pub payload_schema_hash : String → String
  unfolding interaction_by_contract_id
  payload_schema_hash contract_id = schema_hash_of (interaction_by_contract_id contract_id)

  -- `jsonValueMatchesType`
  unfoldable pub json_value_matches_type : Json → String → Bool
  json_value_matches_type value want =
      if want == "string"
      then elim value as (λ _. Bool) [ text s ↦ true | _ ↦ false ]
      else if want == "number"
      then elim value as (λ _. Bool) [ number n ↦ true | _ ↦ false ]
      else if want == "integer"
      then elim value as (λ _. Bool) [ number n ↦ is_integral n | _ ↦ false ]
      else if want == "boolean"
      then elim value as (λ _. Bool) [ bool b ↦ true | _ ↦ false ]
      else if want == "object"
      then elim value as (λ _. Bool) [ object fs ↦ true | _ ↦ false ]
      else if want == "array"
      then elim value as (λ _. Bool) [ array xs ↦ true | _ ↦ false ]
      else false

  -- One turn of the loop over the payload's properties: the property's schema, if it has one.
  unfoldable pub check_property : Bool → Json → Option Fields → Result PayloadError (Unit {0})
  unfolding get string_value json_value_matches_type
  check_property closed value none = if closed then err unsupported_property else ok tt
  check_property closed value (some property) =
      let want = string_value (get "type" property) in
      if not (want == "") && not (json_value_matches_type value want)
      then err mistyped_property
      else ok tt

  abbrev pub and_then :
      Result PayloadError (Unit {0})
      → Result PayloadError (Unit {0})
      → Result PayloadError (Unit {0})
  and_then (err e) more = err e
  and_then (ok _) more = more

  -- The loop over the payload's properties.
  unfoldable pub check_properties : Bool → Fields → Fields → Result PayloadError (Unit {0})
  unfolding check_property get
  check_properties closed properties end = ok tt
  check_properties closed properties (field key value payload) =
      and_then (check_property closed value (fields_of (get key properties)))
        (check_properties closed properties payload)

  -- `ValidatePayload` once the payload and the schema are read.
  unfoldable pub validate_fields :
      Interaction → Fields → Option Fields → Result PayloadError (Unit {0})
  unfolding check_required check_properties private_fields is_closed string_value get
  validate_fields i payload none =
      if not (trim_space (string_value (get "transaction_kind" payload)) == i.transaction_kind)
      then err kind_mismatch
      else if trim_space (string_value (get "subject" payload)) == ""
      then err no_subject
      else err bad_schema
  validate_fields i payload (some schema) =
      if not (trim_space (string_value (get "transaction_kind" payload)) == i.transaction_kind)
      then err kind_mismatch
      else if trim_space (string_value (get "subject" payload)) == ""
      then err no_subject
      else if private_fields network payload
      then err private_topology
      else and_then (check_required (items_of (get "required" schema)) payload) (
          check_properties (is_closed (get "additionalProperties" schema))
            (or_else end (fields_of (get "properties" schema))) payload)

  abbrev pub validate_read : Interaction → Option Fields → Result PayloadError (Unit {0})
  validate_read i none = err not_object
  validate_read i (some payload) = validate_fields i payload (json_object (utf8 i.schema_json))

  abbrev pub validate_found : Option Interaction → Bytes → Result PayloadError (Unit {0})
  validate_found none payload = err not_in_pack
  validate_found (some i) payload = validate_read i (json_object payload)

  -- `ValidatePayload`
  unfoldable pub validate_payload : String → Bytes → Result PayloadError (Unit {0})
  unfolding validate_fields interaction_by_contract_id
  validate_payload contract_id payload =
      validate_found (interaction_by_contract_id contract_id) payload
