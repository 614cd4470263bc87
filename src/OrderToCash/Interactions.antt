-- ===== src/OrderToCash/Interactions.antt =====
-- contracts/contractpacks/ordertocash/pack.go: the seven interactions of the pack.
use xx_federation_contracts.Base.{String, List, [], ◌∷◌}

pub record Interaction : Type 0 where
  pub contract_id : String
  pub display_name : String
  pub service_kind : String
  pub business_action : String
  pub transaction_kind : String
  pub schema_ref : String
  pub schema_json : String
  pub result_contracts : List String

abbrev pub request_for_quote : Interaction
request_for_quote = record {
  contract_id = "order_to_cash.request_for_quote.request.v1";
  display_name = "Request for quote";
  service_kind = "order_to_cash.request_for_quote";
  business_action = "request_for_quote";
  transaction_kind = "order_to_cash.request_for_quote";
  schema_ref = "schemas/order_to_cash/request_for_quote.request.v1.json";
  schema_json =
      "{\"type\":\"object\",\"required\":[\"transaction_kind\",\"subject\",\"document_id\",\"buyer_ref\",\"seller_ref\",\"requested_at\",\"line_items\"],\"properties\":{\"transaction_kind\":{\"type\":\"string\"},\"subject\":{\"type\":\"string\"},\"document_id\":{\"type\":\"string\"},\"buyer_ref\":{\"type\":\"string\"},\"seller_ref\":{\"type\":\"string\"},\"requested_at\":{\"type\":\"string\"},\"due_at\":{\"type\":\"string\"},\"currency\":{\"type\":\"string\"},\"line_items\":{\"type\":\"array\"},\"notes\":{\"type\":\"string\"}},\"additionalProperties\":false}";
  result_contracts = "order_to_cash.quote.response.v1" ∷ [];
}

abbrev pub quote : Interaction
quote = record {
  contract_id = "order_to_cash.quote.response.v1";
  display_name = "Quote response";
  service_kind = "order_to_cash.quote";
  business_action = "submit_quote";
  transaction_kind = "order_to_cash.quote";
  schema_ref = "schemas/order_to_cash/quote.response.v1.json";
  schema_json =
      "{\"type\":\"object\",\"required\":[\"transaction_kind\",\"subject\",\"document_id\",\"rfq_document_id\",\"seller_ref\",\"buyer_ref\",\"quoted_at\",\"currency\",\"total_amount\",\"line_items\"],\"properties\":{\"transaction_kind\":{\"type\":\"string\"},\"subject\":{\"type\":\"string\"},\"document_id\":{\"type\":\"string\"},\"rfq_document_id\":{\"type\":\"string\"},\"seller_ref\":{\"type\":\"string\"},\"buyer_ref\":{\"type\":\"string\"},\"quoted_at\":{\"type\":\"string\"},\"valid_until\":{\"type\":\"string\"},\"currency\":{\"type\":\"string\"},\"total_amount\":{\"type\":\"number\"},\"line_items\":{\"type\":\"array\"},\"terms_ref\":{\"type\":\"string\"}},\"additionalProperties\":false}";
  result_contracts = "order_to_cash.purchase_order.request.v1" ∷ [];
}

abbrev pub purchase_order : Interaction
purchase_order = record {
  contract_id = "order_to_cash.purchase_order.request.v1";
  display_name = "Purchase order request";
  service_kind = "order_to_cash.purchase_order";
  business_action = "submit_purchase_order";
  transaction_kind = "order_to_cash.purchase_order";
  schema_ref = "schemas/order_to_cash/purchase_order.request.v1.json";
  schema_json =
      "{\"type\":\"object\",\"required\":[\"transaction_kind\",\"subject\",\"document_id\",\"quote_document_id\",\"buyer_ref\",\"seller_ref\",\"ordered_at\",\"currency\",\"total_amount\",\"line_items\"],\"properties\":{\"transaction_kind\":{\"type\":\"string\"},\"subject\":{\"type\":\"string\"},\"document_id\":{\"type\":\"string\"},\"quote_document_id\":{\"type\":\"string\"},\"buyer_ref\":{\"type\":\"string\"},\"seller_ref\":{\"type\":\"string\"},\"ordered_at\":{\"type\":\"string\"},\"currency\":{\"type\":\"string\"},\"total_amount\":{\"type\":\"number\"},\"line_items\":{\"type\":\"array\"},\"delivery_window\":{\"type\":\"string\"},\"buyer_reference\":{\"type\":\"string\"}},\"additionalProperties\":false}";
  result_contracts = "order_to_cash.order_confirmation.response.v1" ∷ [];
}

abbrev pub order_confirmation : Interaction
order_confirmation = record {
  contract_id = "order_to_cash.order_confirmation.response.v1";
  display_name = "Order confirmation";
  service_kind = "order_to_cash.order_confirmation";
  business_action = "confirm_order";
  transaction_kind = "order_to_cash.order_confirmation";
  schema_ref = "schemas/order_to_cash/order_confirmation.response.v1.json";
  schema_json =
      "{\"type\":\"object\",\"required\":[\"transaction_kind\",\"subject\",\"document_id\",\"purchase_order_document_id\",\"seller_ref\",\"buyer_ref\",\"confirmed_at\",\"status\"],\"properties\":{\"transaction_kind\":{\"type\":\"string\"},\"subject\":{\"type\":\"string\"},\"document_id\":{\"type\":\"string\"},\"purchase_order_document_id\":{\"type\":\"string\"},\"seller_ref\":{\"type\":\"string\"},\"buyer_ref\":{\"type\":\"string\"},\"confirmed_at\":{\"type\":\"string\"},\"status\":{\"type\":\"string\"},\"promised_ship_at\":{\"type\":\"string\"},\"exception_reason\":{\"type\":\"string\"}},\"additionalProperties\":false}";
  result_contracts =
      "order_to_cash.shipment_status.update.v1" ∷ "order_to_cash.invoice.issue.v1" ∷ [];
}

abbrev pub shipment_status : Interaction
shipment_status = record {
  contract_id = "order_to_cash.shipment_status.update.v1";
  display_name = "Shipment status update";
  service_kind = "order_to_cash.shipment_status";
  business_action = "update_shipment_status";
  transaction_kind = "order_to_cash.shipment_status";
  schema_ref = "schemas/order_to_cash/shipment_status.update.v1.json";
  schema_json =
      "{\"type\":\"object\",\"required\":[\"transaction_kind\",\"subject\",\"document_id\",\"purchase_order_document_id\",\"seller_ref\",\"buyer_ref\",\"status\",\"updated_at\"],\"properties\":{\"transaction_kind\":{\"type\":\"string\"},\"subject\":{\"type\":\"string\"},\"document_id\":{\"type\":\"string\"},\"purchase_order_document_id\":{\"type\":\"string\"},\"seller_ref\":{\"type\":\"string\"},\"buyer_ref\":{\"type\":\"string\"},\"status\":{\"type\":\"string\"},\"updated_at\":{\"type\":\"string\"},\"carrier_ref\":{\"type\":\"string\"},\"tracking_ref\":{\"type\":\"string\"},\"estimated_delivery_at\":{\"type\":\"string\"}},\"additionalProperties\":false}";
  result_contracts = "order_to_cash.invoice.issue.v1" ∷ [];
}

abbrev pub invoice : Interaction
invoice = record {
  contract_id = "order_to_cash.invoice.issue.v1";
  display_name = "Invoice issue";
  service_kind = "order_to_cash.invoice";
  business_action = "issue_invoice";
  transaction_kind = "order_to_cash.invoice";
  schema_ref = "schemas/order_to_cash/invoice.issue.v1.json";
  schema_json =
      "{\"type\":\"object\",\"required\":[\"transaction_kind\",\"subject\",\"document_id\",\"purchase_order_document_id\",\"seller_ref\",\"buyer_ref\",\"issued_at\",\"currency\",\"invoice_amount\",\"due_at\"],\"properties\":{\"transaction_kind\":{\"type\":\"string\"},\"subject\":{\"type\":\"string\"},\"document_id\":{\"type\":\"string\"},\"purchase_order_document_id\":{\"type\":\"string\"},\"seller_ref\":{\"type\":\"string\"},\"buyer_ref\":{\"type\":\"string\"},\"issued_at\":{\"type\":\"string\"},\"currency\":{\"type\":\"string\"},\"invoice_amount\":{\"type\":\"number\"},\"due_at\":{\"type\":\"string\"},\"remittance_ref\":{\"type\":\"string\"}},\"additionalProperties\":false}";
  result_contracts = "order_to_cash.payment_status.update.v1" ∷ [];
}

abbrev pub payment_status : Interaction
payment_status = record {
  contract_id = "order_to_cash.payment_status.update.v1";
  display_name = "Payment status update";
  service_kind = "order_to_cash.payment_status";
  business_action = "update_payment_status";
  transaction_kind = "order_to_cash.payment_status";
  schema_ref = "schemas/order_to_cash/payment_status.update.v1.json";
  schema_json =
      "{\"type\":\"object\",\"required\":[\"transaction_kind\",\"subject\",\"document_id\",\"invoice_document_id\",\"buyer_ref\",\"seller_ref\",\"status\",\"updated_at\"],\"properties\":{\"transaction_kind\":{\"type\":\"string\"},\"subject\":{\"type\":\"string\"},\"document_id\":{\"type\":\"string\"},\"invoice_document_id\":{\"type\":\"string\"},\"buyer_ref\":{\"type\":\"string\"},\"seller_ref\":{\"type\":\"string\"},\"status\":{\"type\":\"string\"},\"updated_at\":{\"type\":\"string\"},\"payment_ref\":{\"type\":\"string\"},\"paid_amount\":{\"type\":\"number\"},\"currency\":{\"type\":\"string\"}},\"additionalProperties\":false}";
  result_contracts = [];
}

abbrev pub interactions : List Interaction
interactions =
    request_for_quote ∷ quote ∷ purchase_order ∷ order_confirmation ∷ shipment_status ∷ invoice
    ∷ payment_status ∷ []
