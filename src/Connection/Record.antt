-- ===== src/Connection/Record.antt =====
-- modules/connections: repository/ConnectionRecord.ts, models/DidExchangeState.ts and
-- models/DidExchangeRole.ts. Labels, urls and tags are left out: no modelled code reads them.
use test_lib.Common.{String, Bool, true, false, Option, List}
use test_lib.Exec.{Exec, assert}

pub data DidExchangeState : Type 0 where
  start invitation_sent invitation_received request_sent request_received : DidExchangeState
  response_sent response_received abandoned completed : DidExchangeState

pub data DidExchangeRole : Type 0 where
  requester responder : DidExchangeRole

pub record ConnectionRecord : Type 0 where
  pub id : String
  pub state : DidExchangeState
  pub role : DidExchangeRole
  pub did : Option String
  pub their_did : Option String
  pub thread_id : Option String
  pub error_message : Option String
  pub connection_types : List String
  -- the metadata `UseDidKeysForProtocol`: a flag for each protocol
  pub use_did_keys_for_protocol : List (String × Bool)

-- `[DidExchangeState.Completed, DidExchangeState.ResponseSent].includes(this.state)`
unfoldable pub is_ready : ConnectionRecord → Bool
is_ready connection = elim connection.state [ completed ↦ true | response_sent ↦ true | _ ↦ false ]

unfoldable pub assert_ready : {S : Type 0} → ConnectionRecord → Exec S Unit
unfolding is_ready
assert_ready connection = assert (is_ready connection) "Connection record is not ready to be used"
