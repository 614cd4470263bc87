-- ===== src/OrderToCash/Payload/Accepted.antt =====
-- contracts/contractpacks/ordertocash/pack.go: what `ValidatePayload` accepts.
use xx_federation_contracts.Base.{
  ◌≡◌, ◌≢◌, refl, ap, sym, ◌∙◌, ◌↔◌, String, Bool, true, false, Option, none, some, arith, ◌==◌,
  eq_iff,
}
use xx_federation_contracts.Base.Maps.{is_some, or_else}
use xx_federation_contracts.Base.Bytes.{Bytes}
use xx_federation_contracts.Base.Text.{trim_space, filled}
use xx_federation_contracts.Base.Exec.{Result, ok, err}
use xx_federation_contracts.Exchange.Topology.{
  Json, Items, Fields, null, bool, number, text, array, object, nil, cons, end, field,
}
use xx_federation_contracts.OrderToCash.Interactions.{Interaction}
use xx_federation_contracts.OrderToCash.Hosts.{private_fields}
use xx_federation_contracts.OrderToCash.Payload.{
  Pack, PayloadError, get, string_value, items_of, fields_of, interaction_by_contract_id, and_then,
  validate_read, validate_found, check_required, is_closed, json_value_matches_type, check_property,
  check_properties, validate_fields, validate_payload,
}

-- Each name of the list is a text that is not blank, and a property of the payload.
abbrev pub HasAll : Items → Fields → Type 0
HasAll nil payload = Unit
HasAll (cons (text key) items) payload =
    ((filled (trim_space key) ≡ true) × (is_some (get key payload) ≡ true)) × HasAll items payload
HasAll (cons item items) payload = ⊥

check_required_iff :
    (items : Items) (payload : Fields)
    → (check_required items payload ≡ ok tt) ↔ HasAll items payload
unfolding check_required
check_required_iff nil payload = (λ _. tt, λ _. refl)
check_required_iff (cons (text key) items) payload = (
  λ h. ((ground arith, ground arith), (check_required_iff items payload).0 (ground arith)),
  λ ((a, b), more). ground (arith, a, b, (check_required_iff items payload).1 more),
)
check_required_iff (cons null items) payload = (λ h. ground arith, λ h. elim h [ ])
check_required_iff (cons (bool b) items) payload = (λ h. ground arith, λ h. elim h [ ])
check_required_iff (cons (number n) items) payload = (λ h. ground arith, λ h. elim h [ ])
check_required_iff (cons (array xs) items) payload = (λ h. ground arith, λ h. elim h [ ])
check_required_iff (cons (object fs) items) payload = (λ h. ground arith, λ h. elim h [ ])

module _ (pack : Pack) where
  -- A value fits the schema of its property, or has none in a schema that is not closed.
  abbrev pub Fits : Bool → Json → Option Fields → Type 0
  Fits closed value none = closed ≡ false
  Fits closed value (some property) =
      filled (string_value (get "type" property)) ≡ true
      → json_value_matches_type pack value (string_value (get "type" property)) ≡ true

  abbrev pub Conforms : Bool → Fields → Fields → Type 0
  Conforms closed properties end = Unit
  Conforms closed properties (field key value payload) =
      Fits closed value (fields_of (get key properties)) × Conforms closed properties payload

  both_iff :
      (a b : Result PayloadError (Unit {0}))
      → (and_then pack a b ≡ ok tt) ↔ ((a ≡ ok tt) × (b ≡ ok tt))
  both_iff (ok tt) b = (λ h. (refl, h), λ (e, f). f)
  both_iff (err e) b = (λ h. ground arith, λ (e, f). ground (arith, e))

  check_property_iff :
      (closed : Bool) (value : Json) (property : Option Fields)
      → (check_property pack closed value property ≡ ok tt) ↔ Fits closed value property
  unfolding check_property
  check_property_iff closed value none = (λ h. ground arith, λ h. ground (arith, h))
  check_property_iff closed value (some property) = (λ h k. ground arith, λ f. ground (arith, f))

  check_properties_iff :
      (closed : Bool) (properties payload : Fields)
      → (check_properties pack closed properties payload ≡ ok tt)
        ↔ Conforms closed properties payload
  unfolding check_properties
  check_properties_iff closed properties end = (λ _. tt, λ _. refl)
  check_properties_iff closed properties (field key value payload) =
      let (one, back) = check_property_iff closed value (fields_of (get key properties)) in
      let (more, back2) = check_properties_iff closed properties payload in
      let (parts, whole) =
        both_iff (check_property pack closed value (fields_of (get key properties)))
          (check_properties pack closed properties payload) in
      (λ h. let (a, b) = parts h in (one a, more b), λ (a, b). whole (back a, back2 b))

  -- What the payload and the schema of an interaction are to each other.
  abbrev pub IsConforming : Interaction → Fields → Fields → Type 0
  IsConforming i payload schema =
      (trim_space (string_value (get "transaction_kind" payload)) ≡ i.transaction_kind)
      × (filled (trim_space (string_value (get "subject" payload))) ≡ true)
      × (private_fields pack.network payload ≡ false)
      × HasAll (items_of (get "required" schema)) payload
      × Conforms (is_closed (get "additionalProperties" schema))
          (or_else end (fields_of (get "properties" schema))) payload

  abbrev pub IsAccepted : String → Bytes → Type 0
  IsAccepted contract_id payload =
      (i : Interaction) × (fields : Fields) × (schema : Fields) × (interaction_by_contract_id
          contract_id
        ≡ some i)
      × (pack.json_object payload ≡ some fields)
      × (pack.json_object (pack.utf8 i.schema_json) ≡ some schema)
      × IsConforming i fields schema

  validate_fields_iff :
      (i : Interaction) (payload schema : Fields)
      → (validate_fields pack i payload (some schema) ≡ ok tt) ↔ IsConforming i payload schema
  unfolding validate_fields
  validate_fields_iff i payload schema =
      let required = check_required (items_of (get "required" schema)) payload in
      let properties =
        check_properties pack (is_closed (get "additionalProperties" schema))
          (or_else end (fields_of (get "properties" schema))) payload in
      let (parts, whole) = both_iff required properties in
      let (all, all2) = check_required_iff (items_of (get "required" schema)) payload in
      let (each, each2) =
        check_properties_iff (is_closed (get "additionalProperties" schema))
          (or_else end (fields_of (get "properties" schema))) payload in
      let kind = trim_space (string_value (get "transaction_kind" payload)) in
      (
        λ h.
            let (a, b) = parts (ground arith) in
            (
              ground (arith, eq_iff kind i.transaction_kind),
              ground arith,
              ground arith,
              all a,
              each b,
            ),
        λ (k, f, p, r, c).
            let same : (kind == i.transaction_kind) ≡ true = (eq_iff kind i.transaction_kind).1 k in
            let more = whole (all2 r, each2 c) in ground (arith, same, f, p, more),
      )

  unreadable : (i : Interaction) (payload : Fields) → validate_fields pack i payload none ≢ ok tt
  unfolding validate_fields
  unreadable i payload h = ground arith

  validate_found_sound :
      (contract_id : String) (payload : Bytes) (found : Option Interaction)
      → interaction_by_contract_id contract_id ≡ found
      → validate_found pack found payload ≡ ok tt
      → IsAccepted contract_id payload
  validate_found_sound contract_id payload none e h = ground arith
  validate_found_sound contract_id payload (some i) e h =
      read (pack.json_object payload) (pack.json_object (pack.utf8 i.schema_json)) refl refl h
    where
      read :
          (fields schema : Option Fields)
          → pack.json_object payload ≡ fields
          → pack.json_object (pack.utf8 i.schema_json) ≡ schema
          → validate_read pack i (pack.json_object payload) ≡ ok tt
          → IsAccepted contract_id payload
      read none schema f g k =
          let refused : validate_read pack i none ≡ ok tt = ap (validate_read pack i) (sym f) ∙ k in
          ground (arith, refused)
      read (some fields) none f g k =
          let refused : validate_fields pack i fields none ≡ ok tt =
            ap (validate_fields pack i fields) (sym g) ∙ ap (validate_read pack i) (sym f) ∙ k in
          elim (unreadable i fields refused) [ ]
      read (some fields) (some schema) f g k = (
        i,
        fields,
        schema,
        e,
        f,
        g,
        (validate_fields_iff i fields schema).0
            (ap (validate_fields pack i fields) (sym g) ∙ ap (validate_read pack i) (sym f) ∙ k),
      )

  -- `ValidatePayload` accepts a payload exactly if its contract is in the pack, it is a JSON object,
  -- and so is the contract's schema, its kind of transaction is the contract's, it has a subject that
  -- is not blank, no private topology and all that the schema requires, and each of its properties
  -- fits the schema's: one without a schema is refused if the schema is closed.
  pub validate_payload_iff :
      (contract_id : String) (payload : Bytes)
      → (validate_payload pack contract_id payload ≡ ok tt) ↔ IsAccepted contract_id payload
  unfolding validate_payload
  validate_payload_iff contract_id payload = (
    validate_found_sound contract_id payload (interaction_by_contract_id contract_id) refl,
    λ (i, fields, schema, e, f, g, c). rw (e, f, g) ((validate_fields_iff i fields schema).1 c),
  )
