-- ===== src/Proof/Protocol/Transitions.antt =====
-- The transitions of the protocol, and the effect of its methods along them.
pub mod Sent
pub mod Received
use test_lib.Common.{Option, none, some}
use test_lib.Proof.Record.{
  ProofState, ProofExchangeRecord, proposal_sent, proposal_received, request_sent, request_received,
  presentation_sent, presentation_received, abandoned, done,
}

-- The transitions of the protocol (RFC 0454), under the names of its messages. `none`: the
-- exchange is new.
pub data Transition : Option ProofState → ProofState → Type 0 where
  send_proposal : Transition none proposal_sent
  receive_proposal : Transition none proposal_received
  send_request : Transition none request_sent
  receive_request : Transition none request_received
  request_on_proposal : Transition (some proposal_received) request_sent
  proposal_on_request : Transition (some request_received) proposal_sent
  proposal_again : Transition (some request_sent) proposal_received
  request_again : Transition (some proposal_sent) request_received
  present : Transition (some request_received) presentation_sent
  receive_presentation : Transition (some request_sent) presentation_received
  send_ack : Transition (some presentation_received) done
  receive_ack : Transition (some presentation_sent) done
  abandon : {s : ProofState} → Transition (some s) abandoned

-- the record of the returned record and message
abbrev pub record_of : {M : Type 0} → ProofExchangeRecord × M → ProofExchangeRecord
record_of p = p.0
