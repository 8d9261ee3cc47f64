-- ===== src/Proof/Record.antt =====
-- modules/proofs: the exchange record and its parts (repository/ProofExchangeRecord.ts,
-- models/ProofState.ts, models/ProofAutoAcceptType.ts, utils/composeAutoAccept.ts). Creation dates
-- and custom tags are left out: no modelled code reads them.
pub mod States
use test_lib.Common.{String, Bool, Option, none, some, ◌==◌}
use test_lib.Exec.{Exec, assert}

pub data ProofState : Type 0 where
  proposal_sent proposal_received request_sent request_received : ProofState
  presentation_sent presentation_received declined abandoned done : ProofState

-- the value of the enum
unfoldable pub state_name : ProofState → String
state_name proposal_sent = "proposal-sent"
state_name proposal_received = "proposal-received"
state_name request_sent = "request-sent"
state_name request_received = "request-received"
state_name presentation_sent = "presentation-sent"
state_name presentation_received = "presentation-received"
state_name declined = "declined"
state_name abandoned = "abandoned"
state_name done = "done"

pub data AutoAcceptProof : Type 0 where
  always content_approved never : AutoAcceptProof

-- the record's setting, else the agent's, else `never`
abbrev pub compose_auto_accept : Option AutoAcceptProof → Option AutoAcceptProof → AutoAcceptProof
compose_auto_accept (some setting) agent_config = setting
compose_auto_accept none (some setting) = setting
compose_auto_accept none none = never

pub record ProofExchangeRecord : Type 0 where
  pub id : String
  pub connection_id : Option String
  pub thread_id : String
  pub parent_thread_id : Option String
  pub is_verified : Option Bool
  pub state : ProofState
  pub auto_accept_proof : Option AutoAcceptProof
  pub error_message : Option String
  pub protocol_version : String

-- `new ProofExchangeRecord({ ..., protocolVersion: 'v2' })`: the connection, the thread and its
-- parent
unfoldable pub new_record :
    String
    → Option String
    → String
    → Option String
    → ProofState
    → Option AutoAcceptProof
    → ProofExchangeRecord
new_record id connection_id thread_id parent_thread_id state auto_accept = record {
  id = id;
  connection_id = connection_id;
  thread_id = thread_id;
  parent_thread_id = parent_thread_id;
  is_verified = none;
  state = state;
  auto_accept_proof = auto_accept;
  error_message = none;
  protocol_version = "v2";
}

-- `assertProtocolVersion`
unfoldable pub assert_protocol_version : {S : Type 0} → String → ProofExchangeRecord → Exec S Unit
assert_protocol_version version r =
    assert (r.protocol_version == version) "Proof record has invalid protocol version"

-- `assertState`, of one expected state
unfoldable pub assert_state : {S : Type 0} → ProofState → ProofExchangeRecord → Exec S Unit
unfolding state_name
assert_state expected r =
    assert (state_name expected == state_name r.state) "Proof record is in invalid state"
