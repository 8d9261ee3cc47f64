-- ===== src/Connection/Service.antt =====
-- `createTrustPing`, `processAck` and `updateState` of ConnectionService.ts in
-- modules/connections/services, and `assertState` of ConnectionRecord.ts.
use test_lib.Common.{
  String, Bool, true, false, Option, none, some, List, [], ◌∷◌, refl, map, includes, ◌==◌, ◌&&◌,
}
use test_lib.Exec.{Exec, aries_framework_error, assert, pure, throw, ◌>>=◌, ◌>>◌}
use test_lib.Message.{AckMessage}
use test_lib.Connection.Record.{
  ConnectionRecord, DidExchangeState, completed, response_sent, response_received, responder,
}
use test_lib.Connection.Exchange.{did_exchange_state_name, did_exchange_role_name}
use test_lib.Connection.Inbound.{InboundMessageContext}
use test_lib.Storage.Service.{StorageService}
use test_lib.Storage.DidComm
use test_lib.Storage.DidComm.{Externals}
use test_lib.Exchange
use test_lib.Exchange.{States, on_stores}

-- messages/TrustPingMessage.ts
pub record TrustPingMessage : Type 0 where
  pub id : String
  pub comment : Option String
  pub response_requested : Bool

-- the states of a connection
abbrev pub connection_states : States ConnectionRecord DidExchangeState
connection_states = record {
  state_of = λ c. c.state;
  with_state = λ s c. record c { state = s };
  state_of-with_state = λ s c. refl;
}

-- `ConnectionStateChangedEvent` tells of a change; the stores are those of the other protocols.
abbrev pub ConnectionWorld : Type 0 → Type 0 → Type 0 → Type 0
ConnectionWorld CS MS X = Exchange.World CS ConnectionRecord DidExchangeState MS X

-- `assertState`, of a list of states
unfoldable pub assert_state : {S : Type 0} → List DidExchangeState → ConnectionRecord → Exec S Unit
unfolding did_exchange_state_name
assert_state expected connection =
    assert
      (includes (map did_exchange_state_name expected) (did_exchange_state_name connection.state))
      "Connection record is in invalid state"

abbrev is_in : DidExchangeState → ConnectionRecord → Bool
is_in state connection = did_exchange_state_name state == did_exchange_state_name connection.state

abbrev pub not_completed : ConnectionRecord → Bool
not_completed connection = elim (is_in completed connection) [ true ↦ false | false ↦ true ]

module _ {CS Q MS X : Type 0} (storage : StorageService CS ConnectionRecord Q)
    (externals : Externals MS X) where
  abbrev pub update_state :
      ConnectionRecord → DidExchangeState → Exec (ConnectionWorld CS MS X) ConnectionRecord
  update_state = Exchange.update_state storage connection_states

  -- the connection completed, if a test says that it is not yet
  abbrev pub complete_if : Bool → ConnectionRecord → Exec (ConnectionWorld CS MS X) ConnectionRecord
  complete_if true connection = update_state connection completed
  complete_if false connection = pure connection

  -- the response is requested, unless the options say otherwise
  unfoldable pub create_trust_ping :
      ConnectionRecord
      → Bool
      → Option String
      → Exec (ConnectionWorld CS MS X) (ConnectionRecord × TrustPingMessage)
  create_trust_ping connection response_requested comment = do
    assert_state (response_received ∷ completed ∷ []) connection
    id ← on_stores (DidComm.new_uuid externals)
    let message : TrustPingMessage = record {
      id = id;
      comment = comment;
      response_requested = response_requested;
    }
    connection' ← complete_if (not_completed connection) connection
    pure (connection', message)

  abbrev pub acknowledged :
      Option ConnectionRecord → Exec (ConnectionWorld CS MS X) ConnectionRecord
  acknowledged none =
      throw (aries_framework_error "Unable to process connection ack: connection not found")
  acknowledged (some connection) =
      complete_if
        (is_in response_sent connection
          && did_exchange_role_name connection.role == did_exchange_role_name responder)
        connection

  unfoldable pub process_ack :
      InboundMessageContext AckMessage → Exec (ConnectionWorld CS MS X) ConnectionRecord
  unfolding did_exchange_state_name did_exchange_role_name
  process_ack context = acknowledged context.connection
