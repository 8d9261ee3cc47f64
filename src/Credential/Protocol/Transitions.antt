-- ===== src/Credential/Protocol/Transitions.antt =====
-- The transitions of the protocol, and the effect of its methods along them.
pub mod Sent
pub mod Received
use test_lib.Common.{Option, none, some}
use test_lib.Credential.Record.{
  CredentialState, CredentialExchangeRecord, proposal_sent, proposal_received, offer_sent,
  offer_received, request_sent, request_received, credential_issued, credential_received, done,
  abandoned,
}

-- The transitions of the protocol (RFC 0453), under the names of its messages. `none`: the
-- exchange is new.
pub data Transition : Option CredentialState → CredentialState → Type 0 where
  send_proposal : Transition none proposal_sent
  receive_proposal : Transition none proposal_received
  send_offer : Transition none offer_sent
  receive_offer : Transition none offer_received
  send_request : Transition none request_sent
  receive_request : Transition none request_received
  offer_on_proposal : Transition (some proposal_received) offer_sent
  proposal_on_offer : Transition (some offer_received) proposal_sent
  proposal_again : Transition (some offer_sent) proposal_received
  offer_again : Transition (some proposal_sent) offer_received
  request_on_offer : Transition (some offer_received) request_sent
  request_received_on_offer : Transition (some offer_sent) request_received
  issue : Transition (some request_received) credential_issued
  receive_credential : Transition (some request_sent) credential_received
  send_ack : Transition (some credential_received) done
  receive_ack : Transition (some credential_issued) done
  abandon : {s : CredentialState} → Transition (some s) abandoned

-- the record of the returned record and message
abbrev pub record_of : {M : Type 0} → CredentialExchangeRecord × M → CredentialExchangeRecord
record_of p = p.0
