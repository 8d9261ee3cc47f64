-- ===== src/Tests/Connections.antt =====
-- The handshake and the check of inbound messages at concrete inputs.
use test_lib.Common.{true, ℕ, false, none, some, [], ◌∷◌, ◌≡◌, ◌↔◌}
use test_lib.Exec.{ok}
use test_lib.Message.{AgentMessage, ServiceDecorator, offer_credential, request_credential}
use test_lib.Connection.Record.{
  ConnectionRecord, DidExchangeState, request_sent, request_received, requester, responder,
}
use test_lib.Connection.Inbound.{InboundMessageContext, assert_connection_or_service_decorator}
use test_lib.Connection.Inbound.Laws.{IsAllowed, assert_connection_or_service_decorator_iff}
use test_lib.Connection.Exchange.{exchange_response, next_state}
use test_lib.Connection.Exchange.Laws.{processes, IsAccepted, Handshake, IsAccepted-iff}

abbrev requested : ConnectionRecord
requested = record {
  id = "c";
  state = request_received;
  role = responder;
  did = none;
  their_did = none;
  thread_id = none;
  error_message = none;
  connection_types = [];
  use_did_keys_for_protocol = [];
}

abbrev waiting : ConnectionRecord
waiting = record requested { state = request_sent; role = requester }

IsAccepted-iff_example : IsAccepted processes exchange_response waiting ↔ (
    (next : DidExchangeState) × (next_state exchange_response waiting ≡ ok next)
    × Handshake processes waiting.role waiting.state exchange_response next)
IsAccepted-iff_example = IsAccepted-iff processes exchange_response waiting

abbrev announced : ServiceDecorator
announced = record { recipient_keys = "key" ∷ []; routing_keys = []; service_endpoint = "https" }

abbrev sent_offer : AgentMessage
sent_offer = record {
  message_class = offer_credential;
  id = "o";
  thread = none;
  service = some announced;
  comment = none;
  parent_thread = none;
  goal_code = none;
  will_confirm = false;
  present_multiple = false;
  last_presentation = true;
  please_ack = false;
  formats = [];
  attachments = [];
  credential_preview = none;
}

abbrev connectionless : InboundMessageContext AgentMessage
connectionless = record {
  message = record sent_offer { message_class = request_credential };
  connection = none;
  sender_key = some "theirs";
  recipient_key = some "key";
}

assert_connection_or_service_decorator_iff_example :
    (assert_connection_or_service_decorator {S = ℕ} connectionless none (some sent_offer) none 0
      ≡ (ok tt, 0))
    ↔ IsAllowed connectionless none (some sent_offer) none
assert_connection_or_service_decorator_iff_example =
    assert_connection_or_service_decorator_iff connectionless none (some sent_offer) none 0
