-- ===== src/Exchange/Names.antt =====
-- The protocol constants of contracts/exchange/exchange.go and discovery.go, with the source's
-- values.
use xx_federation_contracts.Base.{String}

abbrev pub schema_gateway_exchange_v1 : String
schema_gateway_exchange_v1 = "builders.federation.gateway_exchange.v1"

abbrev pub schema_preflight_v1 : String
schema_preflight_v1 = "builders.federation.preflight_decision.v1"

abbrev pub decision_allow : String
decision_allow = "allow"

abbrev pub decision_deny : String
decision_deny = "deny"

abbrev pub payload_encoding_json : String
payload_encoding_json = "application/json"

abbrev pub action_get_service_catalog_view : String
action_get_service_catalog_view = "get_service_catalog_view"

abbrev pub action_open_federation_transaction : String
action_open_federation_transaction = "open_federation_transaction"

abbrev pub action_create_federation_room : String
action_create_federation_room = "create_federation_room"

abbrev pub action_submit_federation_message : String
action_submit_federation_message = "submit_federation_message"

abbrev pub action_request_builder_work : String
action_request_builder_work = "request_builder_work"

abbrev pub action_submit_federation_result : String
action_submit_federation_result = "submit_federation_result"

abbrev pub action_deliver_builder_work_result : String
action_deliver_builder_work_result = "deliver_builder_work_result"

abbrev pub action_establish_data_channel : String
action_establish_data_channel = "establish_data_channel"

abbrev pub action_request_for_quote : String
action_request_for_quote = "request_for_quote"

abbrev pub action_submit_quote : String
action_submit_quote = "submit_quote"

abbrev pub action_submit_purchase_order : String
action_submit_purchase_order = "submit_purchase_order"

abbrev pub action_confirm_order : String
action_confirm_order = "confirm_order"

abbrev pub action_update_shipment_status : String
action_update_shipment_status = "update_shipment_status"

abbrev pub action_issue_invoice : String
action_issue_invoice = "issue_invoice"

abbrev pub action_update_payment_status : String
action_update_payment_status = "update_payment_status"

abbrev pub facade_get_service_catalog_view : String
facade_get_service_catalog_view = "GetServiceCatalogView"

abbrev pub facade_open_federation_transaction : String
facade_open_federation_transaction = "OpenFederationTransaction"

abbrev pub facade_create_federation_room : String
facade_create_federation_room = "CreateFederationRoom"

abbrev pub facade_submit_federation_message : String
facade_submit_federation_message = "SubmitFederationMessage"

abbrev pub facade_request_builder_work : String
facade_request_builder_work = "RequestBuilderWork"

abbrev pub facade_submit_federation_result : String
facade_submit_federation_result = "SubmitFederationResult"

abbrev pub facade_deliver_builder_work_result : String
facade_deliver_builder_work_result = "DeliverBuilderWorkResult"

abbrev pub facade_establish_data_channel : String
facade_establish_data_channel = "EstablishDataChannel"

abbrev pub facade_submit_commercial_event : String
facade_submit_commercial_event = "SubmitCommercialEvent"

abbrev pub partner_link_active : String
partner_link_active = "active"

abbrev pub partner_link_revoked : String
partner_link_revoked = "revoked"

abbrev pub error_unauthenticated : String
error_unauthenticated = "exchange_unauthenticated"

abbrev pub error_partner_link_denied : String
error_partner_link_denied = "exchange_partner_link_denied"

abbrev pub error_contract_unknown : String
error_contract_unknown = "exchange_contract_unknown"

abbrev pub error_contract_mismatch : String
error_contract_mismatch = "exchange_contract_mismatch"

abbrev pub error_replay_detected : String
error_replay_detected = "exchange_replay_detected"

abbrev pub error_replay_unavailable : String
error_replay_unavailable = "exchange_replay_unavailable"

abbrev pub error_payload_invalid : String
error_payload_invalid = "exchange_payload_invalid"

abbrev pub error_expired : String
error_expired = "exchange_expired"

abbrev pub error_gateway_unavailable : String
error_gateway_unavailable = "exchange_gateway_unavailable"

abbrev pub error_policy_denied : String
error_policy_denied = "exchange_policy_denied"

abbrev pub error_kill_switch : String
error_kill_switch = "exchange_kill_switch"

abbrev pub action_discover_contract_manifests : String
action_discover_contract_manifests = "discover_contract_manifests"

abbrev pub facade_discover_contract_manifests : String
facade_discover_contract_manifests = "DiscoverContractManifests"

abbrev pub schema_manifest_discovery_v1 : String
schema_manifest_discovery_v1 = "builders.federation.manifest_discovery.v1"
