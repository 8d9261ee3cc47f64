-- ===== src/Credential/Coordinator/Process.antt =====
-- `processProposal`, `processOffer`, `processRequest` and `processCredential` of
-- CredentialFormatCoordinator.ts.
use test_lib.Common.{List}
use test_lib.Exec.{Exec, pure, lift, ◌>>=◌, ◌>>◌}
use test_lib.Message.{AgentMessage}
use test_lib.Storage.DidComm
use test_lib.Storage.DidComm.{receiver, Stores, Externals}
use test_lib.Credential.Record.{Contents, CredentialExchangeRecord}
use test_lib.Credential.Format.{CredentialFormatService}
use test_lib.Credential.Coordinator.Attachments.{get_attachment_for_service}
use test_lib.Credential.Coordinator.Build.{process_each, on_rest}

module _ {MS X : Type 0} (externals : Externals MS X) where
  unfoldable pub process_proposal :
      List (CredentialFormatService X)
      → CredentialExchangeRecord
      → AgentMessage
      → Exec (Stores MS X) Contents
  process_proposal format_services r message = do
    contents ←
        process_each
          (λ service r'. do
            attachment ←
                lift (get_attachment_for_service service message.formats message.attachments)
            on_rest (service.process_proposal r' attachment))
          r format_services r.contents
    DidComm.save_or_update_agent_message externals receiver message r.id
    pure contents

  unfoldable pub process_offer :
      List (CredentialFormatService X)
      → CredentialExchangeRecord
      → AgentMessage
      → Exec (Stores MS X) Contents
  process_offer format_services r message = do
    contents ←
        process_each
          (λ service r'. do
            attachment ←
                lift (get_attachment_for_service service message.formats message.attachments)
            on_rest (service.process_offer r' attachment))
          r format_services r.contents
    DidComm.save_or_update_agent_message externals receiver message r.id
    pure contents

  unfoldable pub process_request :
      List (CredentialFormatService X)
      → CredentialExchangeRecord
      → AgentMessage
      → Exec (Stores MS X) Contents
  process_request format_services r message = do
    contents ←
        process_each
          (λ service r'. do
            attachment ←
                lift (get_attachment_for_service service message.formats message.attachments)
            on_rest (service.process_request r' attachment))
          r format_services r.contents
    DidComm.save_or_update_agent_message externals receiver message r.id
    pure contents

  -- the credential, and the request that it answers
  unfoldable pub process_credential :
      List (CredentialFormatService X)
      → CredentialExchangeRecord
      → AgentMessage
      → AgentMessage
      → Exec (Stores MS X) Contents
  process_credential format_services r message request = do
    contents ←
        process_each
          (λ service r'. do
            attachment ←
                lift (get_attachment_for_service service message.formats message.attachments)
            request_attachment ←
                lift (get_attachment_for_service service request.formats request.attachments)
            on_rest (service.process_credential r' attachment request_attachment))
          r format_services r.contents
    DidComm.save_or_update_agent_message externals receiver message r.id
    pure contents
