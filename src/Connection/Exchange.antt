-- ===== src/Connection/Exchange.antt =====
-- modules/connections/DidExchangeStateMachine.ts: which message of the DID exchange may be created
-- or processed in which state, and the state after it.
pub mod Laws
use test_lib.Common.{
  Bool, true, false, String, Option, none, some, List, [], ◌∷◌, ◌++◌, ◌==◌, ◌&&◌, find, not,
}
use test_lib.Exec.{Result, ok, err, aries_framework_error}
use test_lib.Connection.Record.{
  DidExchangeState, invitation_sent, invitation_received, request_sent, request_received,
  response_sent, response_received, completed, start, abandoned, DidExchangeRole, requester,
  responder, ConnectionRecord,
}

-- the classes of the messages of the protocol didexchange/1.0
pub data ExchangeMessage : Type 0 where
  exchange_request exchange_response exchange_complete exchange_problem_report : ExchangeMessage

-- `type.messageName`
unfoldable pub exchange_message_name : ExchangeMessage → String
exchange_message_name exchange_request = "request"
exchange_message_name exchange_response = "response"
exchange_message_name exchange_complete = "complete"
exchange_message_name exchange_problem_report = "problem-report"

-- `canHandleMessageType(r.message, messageType)`
unfoldable pub is_for : ExchangeMessage → ExchangeMessage → Bool
unfolding exchange_message_name
is_for expected given = exchange_message_name expected == exchange_message_name given

-- the values of the two enums
unfoldable pub did_exchange_state_name : DidExchangeState → String
did_exchange_state_name start = "start"
did_exchange_state_name invitation_sent = "invitation-sent"
did_exchange_state_name invitation_received = "invitation-received"
did_exchange_state_name request_sent = "request-sent"
did_exchange_state_name request_received = "request-received"
did_exchange_state_name response_sent = "response-sent"
did_exchange_state_name response_received = "response-received"
did_exchange_state_name abandoned = "abandoned"
did_exchange_state_name completed = "completed"

unfoldable pub did_exchange_role_name : DidExchangeRole → String
did_exchange_role_name requester = "requester"
did_exchange_role_name responder = "responder"

pub record StateRule : Type 0 where
  pub message : ExchangeMessage
  pub state : DidExchangeState
  pub role : DidExchangeRole
  pub next_state : DidExchangeState

abbrev pub rule :
    ExchangeMessage → DidExchangeState → DidExchangeRole → DidExchangeState → StateRule
rule message state role next_state = record {
  message = message;
  state = state;
  role = role;
  next_state = next_state;
}

unfoldable pub create_message_state_rules : List StateRule
create_message_state_rules =
    rule exchange_request invitation_received requester request_sent
    ∷ rule exchange_response request_received responder response_sent
    ∷ rule exchange_complete response_received requester completed
    ∷ []

unfoldable pub process_message_state_rules : List StateRule
process_message_state_rules =
    rule exchange_request invitation_sent responder request_received
    ∷ rule exchange_response request_sent requester response_received
    ∷ rule exchange_complete response_sent responder completed
    ∷ []

-- `rule.state !== record.state || rule.role !== record.role` fails
unfoldable pub applies : ConnectionRecord → StateRule → Bool
unfolding did_exchange_state_name did_exchange_role_name
applies connection rule =
    did_exchange_state_name rule.state == did_exchange_state_name connection.state
    && did_exchange_role_name rule.role == did_exchange_role_name connection.role

abbrev pub checked : String → Option StateRule → ConnectionRecord → Result (Unit {0})
checked wrong_state none connection =
    err (aries_framework_error "Could not find create message rule")
checked wrong_state (some rule) connection = elim (applies connection rule) [
  | true ↦ ok tt
  | false ↦ err (aries_framework_error wrong_state)
]

unfoldable pub assert_create_message_state : ExchangeMessage → ConnectionRecord → Result (Unit {0})
unfolding is_for create_message_state_rules applies
assert_create_message_state message connection =
    checked "Record is in invalid state to create the message"
      (find (λ (r : StateRule). is_for r.message message) create_message_state_rules) connection

unfoldable pub assert_process_message_state : ExchangeMessage → ConnectionRecord → Result (Unit {0})
unfolding is_for process_message_state_rules applies
assert_process_message_state message connection =
    checked "Record is in invalid state to process the message"
      (find (λ (r : StateRule). is_for r.message message) process_message_state_rules) connection

abbrev pub next_of : Option StateRule → Result DidExchangeState
next_of none = err (aries_framework_error "Could not find create message rule for messageType")
next_of (some rule) = ok rule.next_state

-- `nextState`
unfoldable pub next_state : ExchangeMessage → ConnectionRecord → Result DidExchangeState
unfolding is_for create_message_state_rules process_message_state_rules did_exchange_role_name
next_state message connection = next_of (
    find
      (λ (r : StateRule).
        is_for r.message message
        && did_exchange_role_name r.role == did_exchange_role_name connection.role)
      (create_message_state_rules ++ process_message_state_rules))
