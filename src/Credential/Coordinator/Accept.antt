-- ===== src/Credential/Coordinator/Accept.antt =====
-- `acceptProposal`, `acceptOffer` and `acceptRequest` of CredentialFormatCoordinator.ts: they answer
-- a stored message, format by format.
use test_lib.Common.{String, true, Option, none, some, List}
use test_lib.Exec.{Result, ok, err, Exec, pure, lift, ◌>>=◌, ◌>>◌}
use test_lib.Message.{
  propose_credential, offer_credential, request_credential, issue_credential, AgentMessage,
  Attachment, set_thread,
}
use test_lib.Storage.DidComm
use test_lib.Storage.DidComm.{sender, Stores, Externals}
use test_lib.Credential.Record.{Contents, CredentialExchangeRecord}
use test_lib.Credential.Format.{FormatPayload, CredentialFormatService}
use test_lib.Credential.Coordinator.Attachments.{get_attachment_for_service}
use test_lib.Credential.Coordinator.Build.{empty_draft, build, on_rest}
use test_lib.Credential.Coordinator.Create.{new_message, send_offer}

-- the attachment for a service in a message that may not be there
unfoldable pub attachment_if_sent :
    {X : Type 0} → CredentialFormatService X → Option AgentMessage → Result (Option Attachment)
attachment_if_sent service none = ok none
attachment_if_sent service (some message) =
    elim (get_attachment_for_service service message.formats message.attachments) [
      | ok attachment ↦ ok (some attachment)
      | err e ↦ err e
    ]

module _ {MS X : Type 0} (externals : Externals MS X) where
  unfoldable pub accept_proposal :
      Option FormatPayload
      → List (CredentialFormatService X)
      → CredentialExchangeRecord
      → Option String
      → Exec (Stores MS X) (Contents × AgentMessage)
  accept_proposal credential_formats format_services r comment = do
    proposal ← DidComm.get_agent_message externals r.id propose_credential
    draft ←
        build
          (λ service r'. do
            proposal_attachment ←
                lift (get_attachment_for_service service proposal.formats proposal.attachments)
            on_rest (service.accept_proposal r' credential_formats proposal_attachment))
          r format_services
          (empty_draft
            (record (r.contents) { credential_attributes = proposal.credential_preview }))
    send_offer externals r comment draft

  unfoldable pub accept_offer :
      Option FormatPayload
      → List (CredentialFormatService X)
      → CredentialExchangeRecord
      → Option String
      → Exec (Stores MS X) (Contents × AgentMessage)
  accept_offer credential_formats format_services r comment = do
    offer ← DidComm.get_agent_message externals r.id offer_credential
    draft ←
        build
          (λ service r'. do
            offer_attachment ←
                lift (get_attachment_for_service service offer.formats offer.attachments)
            on_rest (service.accept_offer r' credential_formats offer_attachment))
          r format_services (empty_draft r.contents)
    id ← DidComm.new_uuid externals
    let message = set_thread r.thread_id (new_message request_credential id comment draft)
    DidComm.save_or_update_agent_message externals sender message r.id
    pure (record (draft.contents) { credential_attributes = offer.credential_preview }, message)

  unfoldable pub accept_request :
      Option FormatPayload
      → List (CredentialFormatService X)
      → CredentialExchangeRecord
      → Option String
      → Exec (Stores MS X) (Contents × AgentMessage)
  accept_request credential_formats format_services r comment = do
    request ← DidComm.get_agent_message externals r.id request_credential
    offer ← DidComm.find_agent_message externals r.id offer_credential
    draft ←
        build
          (λ service r'. do
            request_attachment ←
                lift (get_attachment_for_service service request.formats request.attachments)
            offer_attachment ← lift (attachment_if_sent service offer)
            on_rest
                (service.accept_request r' credential_formats request_attachment offer_attachment))
          r format_services (empty_draft r.contents)
    id ← DidComm.new_uuid externals
    let plain = set_thread r.thread_id (new_message issue_credential id comment draft)
    -- `message.setPleaseAck()`
    let message = record plain { please_ack = true }
    DidComm.save_or_update_agent_message externals sender message r.id
    pure (draft.contents, message)
