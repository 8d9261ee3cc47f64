-- ===== src/Connection/Exchange/Laws.antt =====
-- The state machine moves a connection as RFC 0023 says.
use test_lib.Common.{◌≡◌, ◌↔◌, refl, arith}
use test_lib.Exec.{ok}
use test_lib.Connection.Record.{
  DidExchangeState, invitation_sent, invitation_received, request_sent, request_received,
  response_sent, response_received, completed, DidExchangeRole, requester, responder,
  ConnectionRecord,
}
use test_lib.Connection.Exchange.{
  ExchangeMessage, exchange_request, exchange_response, exchange_complete, exchange_problem_report,
  exchange_message_name, is_for, did_exchange_state_name, did_exchange_role_name,
  create_message_state_rules, process_message_state_rules, applies, assert_create_message_state,
  assert_process_message_state, next_state,
}

pub data Action : Type 0 where
  creates processes : Action

-- the handshake of RFC 0023: the message that a role creates or processes in a state, and the state
-- after it
pub data Handshake
    : Action
      → DidExchangeRole
      → DidExchangeState
      → ExchangeMessage
      → DidExchangeState
      → Type 0 where
  sends_request : Handshake creates requester invitation_received exchange_request request_sent
  receives_request : Handshake processes responder invitation_sent exchange_request request_received
  sends_response : Handshake creates responder request_received exchange_response response_sent
  receives_response : Handshake processes requester request_sent exchange_response response_received
  sends_complete : Handshake creates requester response_received exchange_complete completed
  receives_complete : Handshake processes responder response_sent exchange_complete completed

-- the check that lets the message pass, before it is created and before it is processed
abbrev pub IsAccepted : Action → ExchangeMessage → ConnectionRecord → Type 0
IsAccepted creates message connection = assert_create_message_state message connection ≡ ok tt
IsAccepted processes message connection = assert_process_message_state message connection ≡ ok tt

step :
    (action : Action) (role : DidExchangeRole) (state : DidExchangeState)
    (message : ExchangeMessage) (connection : ConnectionRecord)
    → connection.role ≡ role
    → connection.state ≡ state
    → IsAccepted action message connection
    → (next : DidExchangeState) × (next_state message connection ≡ ok next)
      × Handshake action role state message next
unfolding exchange_message_name is_for did_exchange_state_name did_exchange_role_name
    create_message_state_rules process_message_state_rules applies assert_create_message_state
    assert_process_message_state next_state
step creates requester invitation_received exchange_request c er es h =
    (request_sent, rw er refl, sends_request)
step processes responder invitation_sent exchange_request c er es h =
    (request_received, rw er refl, receives_request)
step creates responder request_received exchange_response c er es h =
    (response_sent, rw er refl, sends_response)
step processes requester request_sent exchange_response c er es h =
    (response_received, rw er refl, receives_response)
step creates requester response_received exchange_complete c er es h =
    (completed, rw er refl, sends_complete)
step processes responder response_sent exchange_complete c er es h =
    (completed, rw er refl, receives_complete)
step creates role state exchange_problem_report c er es h = absurd (ground (arith, h))
step processes role state exchange_problem_report c er es h = absurd (ground (arith, h))
step creates role state message c er es h = absurd (ground (arith, rw (er, es) at h))
step processes role state message c er es h = absurd (ground (arith, rw (er, es) at h))

accepts :
    (action : Action) (role : DidExchangeRole) (state : DidExchangeState)
    (message : ExchangeMessage) (next : DidExchangeState) (connection : ConnectionRecord)
    → connection.role ≡ role
    → connection.state ≡ state
    → Handshake action role state message next
    → IsAccepted action message connection
unfolding exchange_message_name is_for did_exchange_state_name did_exchange_role_name
    create_message_state_rules process_message_state_rules applies assert_create_message_state
    assert_process_message_state
accepts _ _ _ _ _ c er es sends_request = rw (er, es) refl
accepts _ _ _ _ _ c er es receives_request = rw (er, es) refl
accepts _ _ _ _ _ c er es sends_response = rw (er, es) refl
accepts _ _ _ _ _ c er es receives_response = rw (er, es) refl
accepts _ _ _ _ _ c er es sends_complete = rw (er, es) refl
accepts _ _ _ _ _ c er es receives_complete = rw (er, es) refl

-- A message may be created in a connection exactly when the handshake of RFC 0023 lets the
-- connection's role create it in the connection's state, and processed exactly when it lets the role
-- process it there; and the step of the handshake leads to the state that `nextState` gives.
pub IsAccepted-iff :
    (action : Action) (message : ExchangeMessage) (connection : ConnectionRecord)
    → IsAccepted action message connection ↔ (
        (next : DidExchangeState) × (next_state message connection ≡ ok next)
        × Handshake action connection.role connection.state message next)
IsAccepted-iff action message connection = (
  λ h. step action connection.role connection.state message connection refl refl h,
  λ (next, _, handshake).
      accepts action connection.role connection.state message next connection refl refl handshake,
)
