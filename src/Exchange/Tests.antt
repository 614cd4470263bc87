-- ===== src/Exchange/Tests.antt =====
-- contracts/exchange: a gateway with a memory replay cache, run on a request and its repetition.
use xx_federation_contracts.Base.{
  ◌≡◌, refl, String, true, false, List, [], ◌∷◌, none, some, any, if◌then◌else◌,
}
use xx_federation_contracts.Base.Int.{pos}
use xx_federation_contracts.Base.Exec.{ok}
use xx_federation_contracts.Base.Slices.{normalize_strings}
use xx_federation_contracts.Base.Slices.Described.{IsNormalOf, normalize_strings-IsNormalOf}
use xx_federation_contracts.Exchange.Names.{
  schema_gateway_exchange_v1, partner_link_active, action_open_federation_transaction,
  facade_open_federation_transaction, payload_encoding_json,
}
use xx_federation_contracts.Exchange.Types.{
  Envelope, AuthenticatedSession, ActionContract, Manifest, ReplayClaim, AcceptedEnvelope,
  DispatchResult,
}
use xx_federation_contracts.Base.Text.{trim_space}
use xx_federation_contracts.Exchange.Session.{
  session_matches_envelope, tenant_match, gateway_match, normalize_session, normalize_envelope,
}
use xx_federation_contracts.Exchange.Topology.{null}
use xx_federation_contracts.Exchange.Payload.{Platform}
use xx_federation_contracts.Exchange.Replay.{MemoryReplayCache, new, claim, replay_detected}
use xx_federation_contracts.Exchange.Replay.Claimed.{share, accepted_of, after, claim-after}
use xx_federation_contracts.Exchange.Handler.{Handler, Facade, Fetch, State}
use xx_federation_contracts.Exchange.Handler.Preflight.{preflight, preflight_manifest_independent}
use xx_federation_contracts.Exchange.Handler.Preflight.Admission.{
  Strict, Free, preflight-Strict, preflight_manifest_independent-Free,
}
use xx_federation_contracts.Exchange.Handler.Serve.{handle, data_channel_action}
use xx_federation_contracts.Exchange.Handler.Serve.Invariant.{IsLawful, IsAnswered}
use xx_federation_contracts.Exchange.Handler.Serve.Requests.{
  serve_all, serve_all-IsLawful, handle-IsAnswered,
}
use xx_federation_contracts.Exchange.Handler.Serve.Blocked.{
  IsStopped, session_code, handle-IsStopped,
}

abbrev platform : Platform
platform = record {
  sha256 = λ bytes. bytes;
  utf8 = λ text. [];
  json_unmarshal = λ bytes. some null;
  json_marshal_discovery = λ found. some "";
}

abbrev done : Fetch MemoryReplayCache AcceptedEnvelope DispatchResult
done accepted w = (ok (record { status = "done"; payload_json = "" }), w)

abbrev facade : Facade MemoryReplayCache
facade = record {
  get_service_catalog_view = done;
  open_federation_transaction = done;
  create_federation_room = done;
  submit_federation_message = done;
  request_builder_work = done;
  submit_federation_result = done;
  deliver_builder_work_result = done;
  submit_commercial_event = done;
  establish_data_channel = none;
}

abbrev action : ActionContract
action = record {
  action = action_open_federation_transaction;
  service_catalog_action = "";
  facade_method = facade_open_federation_transaction;
  mutating = true;
  idempotency_required = true;
  payload_encoding = payload_encoding_json;
  max_payload_bytes = pos 16;
  private_topology_allowed = false;
  allowed_partner_link_ids = "link" ∷ [];
}

abbrev manifest : Manifest
manifest = record {
  tenant_id = "local";
  manifest_id = "m";
  catalog_version = "1";
  contract_id = "c";
  contract_version = "1";
  manifest_hash_sha256 = "aa";
  payload_schema_hash_sha256 = "bb";
  expires_at_ms = pos 5000;
  revoked = false;
  actions = (action_open_federation_transaction, action) ∷ [];
}

abbrev handler : Handler MemoryReplayCache
handler = record {
  manifests = some (λ ref w. (ok manifest, w));
  replay = some claim;
  policy = some (λ check w. (none, w));
  payloads = some (λ input w. (none, w));
  approvals = some (λ check w. (none, w));
  facade = some facade;
  discovery = none;
  audit = some (λ event w. (none, w));
  now_ms = λ w. (pos 1000, w);
  clock_skew_ms = pos 0;
  platform = platform;
}

abbrev session : AuthenticatedSession
session = record {
  local_tenant_id = "local";
  local_gateway_id = "gl";
  remote_tenant_id = "remote";
  remote_gateway_id = "gr";
  remote_service_principal_id = "p";
  partner_link_id = "link";
  partner_link_state = partner_link_active;
  kill_switch_enabled = false;
  control_partner_link_id = "link";
}

abbrev envelope : Envelope
envelope = record {
  schema_version = schema_gateway_exchange_v1;
  envelope_id = "e1";
  correlation_id = "k";
  idempotency_key = "i1";
  sent_at_ms = pos 900;
  expires_at_ms = pos 2000;
  partner_link_id = "link";
  source = record { tenant_id = "remote"; gateway_id = "gr"; gateway_pool_id = "" };
  destination = record { tenant_id = "local"; gateway_id = "gl"; gateway_pool_id = "" };
  contract = record {
    contract_id = "c";
    contract_version = "1";
    manifest_hash_sha256 = "aa";
    payload_schema_hash_sha256 = "bb";
  };
  action = action_open_federation_transaction;
  payload_encoding = payload_encoding_json;
  payload_hash_sha256 = "7b7d";
  payload = 123 ∷ 125 ∷ [];
}

abbrev killed : AuthenticatedSession
killed = record session { kill_switch_enabled = true }

abbrev start : State MemoryReplayCache
start = record { world = new; calls = [] }

abbrev twice : List (AuthenticatedSession × Envelope)
twice = (session, envelope) ∷ (session, envelope) ∷ []

serve_all-IsLawful_example : IsLawful handler (serve_all handler twice start).calls
serve_all-IsLawful_example = serve_all-IsLawful handler twice start tt

handle-IsAnswered_example :
    IsAnswered platform
      (handle handler session envelope start).0
      (handle handler session envelope start).1.calls
handle-IsAnswered_example = handle-IsAnswered handler session envelope start tt

preflight-Strict_example :
    Strict handler session envelope [] (preflight handler session envelope start)
preflight-Strict_example = preflight-Strict handler session envelope start

preflight_manifest_independent-Free_example :
    Free handler session envelope [] data_channel_action
      (preflight_manifest_independent handler session envelope data_channel_action start)
preflight_manifest_independent-Free_example =
    preflight_manifest_independent-Free handler session envelope data_channel_action start

handle-IsStopped_example :
    IsStopped handler
      (session_code (normalize_session killed) (normalize_envelope envelope))
      (handle handler killed envelope)
      start
unfolding normalize_session normalize_envelope session_matches_envelope trim_space tenant_match
    gateway_match
handle-IsStopped_example = handle-IsStopped handler killed envelope start refl

abbrev one_claim : ReplayClaim
one_claim = record { envelope_id = "e1"; idempotency_key = " i1"; expires_at_ms = pos 2000 }

claim-after_example :
    (claim one_claim (after (one_claim ∷ []))).0
    ≡ (if any (share one_claim) (accepted_of (one_claim ∷ [])) then some replay_detected else none)
claim-after_example = claim-after (one_claim ∷ []) one_claim

abbrev spaced : List String
spaced = " b" ∷ "a" ∷ " " ∷ "b" ∷ []

normalize_strings-IsNormalOf_example : IsNormalOf spaced (normalize_strings spaced)
normalize_strings-IsNormalOf_example = normalize_strings-IsNormalOf spaced
