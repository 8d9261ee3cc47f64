-- ===== src/Credential/Record.antt =====
-- modules/credentials: the exchange record and its parts (repository/CredentialExchangeRecord.ts,
-- models/CredentialState.ts, models/CredentialAutoAcceptType.ts, util/composeAutoAccept.ts).
-- Creation dates, custom tags and metadata are left out: no modelled code reads them.
pub mod States
use test_lib.Common.{String, Option, none, some, List, [], ◌==◌}
use test_lib.Exec.{Exec, assert}
use test_lib.Message.{PreviewAttribute, Attachment}

pub data CredentialState : Type 0 where
  proposal_sent proposal_received offer_sent offer_received declined : CredentialState
  request_sent request_received credential_issued credential_received : CredentialState
  done abandoned : CredentialState

-- the value of the enum
unfoldable pub state_name : CredentialState → String
state_name proposal_sent = "proposal-sent"
state_name proposal_received = "proposal-received"
state_name offer_sent = "offer-sent"
state_name offer_received = "offer-received"
state_name declined = "declined"
state_name request_sent = "request-sent"
state_name request_received = "request-received"
state_name credential_issued = "credential-issued"
state_name credential_received = "credential-received"
state_name done = "done"
state_name abandoned = "abandoned"

pub data AutoAcceptCredential : Type 0 where
  always content_approved never : AutoAcceptCredential

-- the record's setting, else the agent's, else `never`
abbrev pub compose_auto_accept :
    Option AutoAcceptCredential → Option AutoAcceptCredential → AutoAcceptCredential
compose_auto_accept (some setting) agent_config = setting
compose_auto_accept none (some setting) = setting
compose_auto_accept none none = never

pub record CredentialRecordBinding : Type 0 where
  pub credential_record_type : String
  pub credential_record_id : String

-- The fields of the record that a format service may write.
pub record Contents : Type 0 where
  pub credentials : List CredentialRecordBinding
  pub credential_attributes : Option (List PreviewAttribute)
  pub linked_attachments : Option (List Attachment)

pub record CredentialExchangeRecord : Type 0 where
  pub id : String
  pub connection_id : Option String
  pub thread_id : String
  pub state : CredentialState
  pub auto_accept_credential : Option AutoAcceptCredential
  pub error_message : Option String
  pub protocol_version : String
  pub contents : Contents

abbrev pub no_contents : Contents
no_contents = record { credentials = []; credential_attributes = none; linked_attachments = none }

-- `new CredentialExchangeRecord({ ..., protocolVersion: 'v2' })`
unfoldable pub new_record :
    String
    → Option String
    → String
    → CredentialState
    → Option AutoAcceptCredential
    → CredentialExchangeRecord
new_record id connection_id thread_id state auto_accept = record {
  id = id;
  connection_id = connection_id;
  thread_id = thread_id;
  state = state;
  auto_accept_credential = auto_accept;
  error_message = none;
  protocol_version = "v2";
  contents = no_contents;
}

-- `assertProtocolVersion`
unfoldable pub assert_protocol_version :
    {S : Type 0} → String → CredentialExchangeRecord → Exec S Unit
assert_protocol_version version r =
    assert (r.protocol_version == version) "Credential record has invalid protocol version"

-- `assertState`, of one expected state
unfoldable pub assert_state :
    {S : Type 0} → CredentialState → CredentialExchangeRecord → Exec S Unit
unfolding state_name
assert_state expected r =
    assert (state_name expected == state_name r.state) "Credential record is in invalid state"
