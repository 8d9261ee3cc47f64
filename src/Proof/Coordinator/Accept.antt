-- ===== src/Proof/Coordinator/Accept.antt =====
-- `acceptProposal`, `acceptRequest`, `getCredentialsForRequest` and `selectCredentialsForRequest` of
-- ProofFormatCoordinator.ts: they answer a stored message, format by format.
use test_lib.Common.{String, Bool, true, Option, List, []}
use test_lib.Exec.{Exec, pure, ◌>>=◌, ◌>>◌}
use test_lib.Message.{
  propose_presentation, request_presentation, presentation, AgentMessage, set_thread,
}
use test_lib.Storage.DidComm
use test_lib.Storage.DidComm.{sender, Stores, Externals}
use test_lib.Proof.Record.{ProofExchangeRecord}
use test_lib.Proof.Format.{ProofPayload, ProofFormatService}
use test_lib.Proof.Coordinator.Build.{
  empty_draft, build, gather, on_rest, attachment_of, attachment_if_sent,
}
use test_lib.Proof.Coordinator.Create.{new_message, send_request, flag_or}

module _ {MS X : Type 0} (externals : Externals MS X) where
  unfoldable pub accept_proposal :
      Option ProofPayload
      → List (ProofFormatService X)
      → ProofExchangeRecord
      → Option String
      → Option String
      → Option Bool
      → Option Bool
      → Exec (Stores MS X) AgentMessage
  accept_proposal proof_formats format_services r comment goal_code present_multiple will_confirm =
      do
        proposal ← DidComm.get_agent_message externals r.id propose_presentation
        draft ←
            build
              (λ service. do
                proposal_attachment ← attachment_of service proposal
                on_rest (service.accept_proposal r proof_formats proposal_attachment))
              format_services empty_draft
        send_request externals r comment goal_code present_multiple will_confirm draft

  unfoldable pub accept_request :
      Option ProofPayload
      → List (ProofFormatService X)
      → ProofExchangeRecord
      → Option String
      → Option Bool
      → Option String
      → Exec (Stores MS X) AgentMessage
  accept_request proof_formats format_services r comment last_presentation goal_code = do
    request ← DidComm.get_agent_message externals r.id request_presentation
    proposal ← DidComm.find_agent_message externals r.id propose_presentation
    draft ←
        build
          (λ service. do
            request_attachment ← attachment_of service request
            proposal_attachment ← attachment_if_sent service proposal
            on_rest (service.accept_request r proof_formats request_attachment proposal_attachment))
          format_services empty_draft
    id ← DidComm.new_uuid externals
    let plain = set_thread r.thread_id (new_message presentation id comment goal_code draft)
    -- `message.setPleaseAck()`
    let message = record plain {
      last_presentation = flag_or true last_presentation;
      please_ack = true;
    }
    DidComm.save_or_update_agent_message externals sender message r.id
    pure message

  unfoldable pub get_credentials_for_request :
      Option ProofPayload
      → List (ProofFormatService X)
      → ProofExchangeRecord
      → Exec (Stores MS X) (List (String × String))
  get_credentials_for_request proof_formats format_services r = do
    request ← DidComm.get_agent_message externals r.id request_presentation
    proposal ← DidComm.find_agent_message externals r.id propose_presentation
    gather
        (λ service. do
          request_attachment ← attachment_of service request
          proposal_attachment ← attachment_if_sent service proposal
          on_rest (
              service.get_credentials_for_request r proof_formats request_attachment
                proposal_attachment))
        format_services []

  unfoldable pub select_credentials_for_request :
      Option ProofPayload
      → List (ProofFormatService X)
      → ProofExchangeRecord
      → Exec (Stores MS X) (List (String × String))
  select_credentials_for_request proof_formats format_services r = do
    request ← DidComm.get_agent_message externals r.id request_presentation
    proposal ← DidComm.find_agent_message externals r.id propose_presentation
    gather
        (λ service. do
          request_attachment ← attachment_of service request
          proposal_attachment ← attachment_if_sent service proposal
          on_rest (
              service.select_credentials_for_request r proof_formats request_attachment
                proposal_attachment))
        format_services []
