-- ===== src/Connection/Inbound.antt =====
-- agent/models/InboundMessageContext.ts, and the check of ConnectionService.ts that an inbound
-- message has a ready connection or the right ~service decorators.
pub mod Laws
pub mod Reads
use test_lib.Common.{String, Bool, false, Option, none, some, ◌||◌, is_defined, is_truthy, includes}
use test_lib.Exec.{Exec, aries_framework_error, assert, pure, throw, ◌>>◌}
use test_lib.Message.{ServiceDecorator, AgentMessage}
use test_lib.Connection.Record.{ConnectionRecord, assert_ready}

-- The message, and the keys (in base 58) that it was packed with.
pub record InboundMessageContext (M : Type 0) : Type 0 where
  pub message : M
  pub connection : Option ConnectionRecord
  pub sender_key : Option String
  pub recipient_key : Option String

-- the recipient keys of a ~service decorator include the key
unfoldable pub service_includes : Option ServiceDecorator → Option String → Bool
service_includes none key = false
service_includes (some service) none = false
service_includes (some service) (some key) = includes service.recipient_keys key

-- the check against one of the previous messages, if there is one, with the texts of its errors
unfoldable pub check_previous :
    {S : Type 0} → String → String → Option AgentMessage → Option String → Exec S Unit
check_previous no_key not_included none key = pure tt
check_previous no_key not_included (some previous) key = do
  assert (is_truthy key) no_key
  assert (service_includes previous.service key) not_included

abbrev pub check_previous_sent : {S : Type 0} → Option AgentMessage → Option String → Exec S Unit
check_previous_sent =
    check_previous
      "Cannot verify service without recipientKey on incoming message (received unpacked message)"
      "Previously sent message ~service recipientKeys does not include current received message recipient key"

abbrev pub check_previous_received :
    {S : Type 0} → Option AgentMessage → Option String → Exec S Unit
check_previous_received =
    check_previous
      "Cannot verify service without senderKey on incoming message (received AnonCrypt or unpacked message)"
      "Previously received message ~service recipientKeys does not include current received message sender key"

-- the checks of a message that came without a connection
unfoldable pub check_service :
    {S M : Type 0}
    → InboundMessageContext M
    → Option ServiceDecorator
    → Option AgentMessage
    → Option AgentMessage
    → Exec S Unit
check_service context service previous_sent previous_received = do
  check_previous_sent previous_sent context.recipient_key
  check_previous_received previous_received context.sender_key
  assert (is_defined service || is_truthy context.recipient_key)
      "Message recipientKey must have ~service decorator"

abbrev pub ready_or : {S : Type 0} → Option ConnectionRecord → Exec S Unit → Exec S Unit
ready_or (some connection) otherwise = assert_ready connection
ready_or none otherwise = otherwise

-- `assertConnectionOrServiceDecorator`: the message's own ~service decorator, and the messages
-- previously sent and previously received
unfoldable pub assert_connection_or_service_decorator :
    {S M : Type 0}
    → InboundMessageContext M
    → Option ServiceDecorator
    → Option AgentMessage
    → Option AgentMessage
    → Exec S Unit
assert_connection_or_service_decorator context service previous_sent previous_received =
    ready_or context.connection (check_service context service previous_sent previous_received)

abbrev pub ready_connection : {S : Type 0} → Option ConnectionRecord → Exec S ConnectionRecord
ready_connection none =
    throw (aries_framework_error "No connection associated with incoming message")
ready_connection (some connection) = do assert_ready connection; pure connection

-- `assertReadyConnection`
unfoldable pub assert_ready_connection :
    {S M : Type 0} → InboundMessageContext M → Exec S ConnectionRecord
assert_ready_connection context = ready_connection context.connection
