-- ===== src/Connection/Inbound/Reads.antt =====
-- The checks of an inbound message leave the state as it is.
use test_lib.Common.{String, Option, none, some}
use test_lib.Message.{AgentMessage, ServiceDecorator}
use test_lib.Exec.Reads.{IsRead, IsRead-pure, IsRead-throw, IsRead-assert, IsRead-bind}
use test_lib.Connection.Record.{ConnectionRecord, assert_ready}
use test_lib.Connection.Inbound.{
  InboundMessageContext, check_previous, check_service, ready_or, ready_connection,
  assert_connection_or_service_decorator, assert_ready_connection,
}

module _ {S : Type 0} where
  IsRead-assert_ready : (connection : ConnectionRecord) → IsRead (assert_ready {S = S} connection)
  unfolding assert_ready
  IsRead-assert_ready connection = IsRead-assert _ _

  IsRead-check_previous :
      (no_key not_included : String) (previous : Option AgentMessage) (key : Option String)
      → IsRead (check_previous {S = S} no_key not_included previous key)
  unfolding check_previous
  IsRead-check_previous no_key not_included none key = IsRead-pure tt
  IsRead-check_previous no_key not_included (some previous) key =
      IsRead-bind _ _ (IsRead-assert _ _) λ _. IsRead-assert _ _

  pub IsRead-assert_connection_or_service_decorator :
      {M : Type 0} (context : InboundMessageContext M) (service : Option ServiceDecorator)
      (sent received : Option AgentMessage)
      → IsRead (assert_connection_or_service_decorator {S = S} context service sent received)
  unfolding assert_connection_or_service_decorator check_service
  IsRead-assert_connection_or_service_decorator context service sent received =
      go context.connection
    where
      go :
          (connection : Option ConnectionRecord)
          → IsRead (ready_or {S = S} connection (check_service context service sent received))
      go (some connection) = IsRead-assert_ready connection
      go none = IsRead-bind _ _ (IsRead-check_previous _ _ sent context.recipient_key) λ _.
          IsRead-bind _ _ (IsRead-check_previous _ _ received context.sender_key)
            λ _. IsRead-assert _ _

  pub IsRead-assert_ready_connection :
      {M : Type 0} (context : InboundMessageContext M)
      → IsRead (assert_ready_connection {S = S} context)
  unfolding assert_ready_connection
  IsRead-assert_ready_connection context = go context.connection
    where
      go : (connection : Option ConnectionRecord) → IsRead (ready_connection {S = S} connection)
      go none = IsRead-throw _
      go (some connection) =
          IsRead-bind _ _ (IsRead-assert_ready connection) λ _. IsRead-pure connection
