-- ===== src/Credential/Coordinator/Create.antt =====
-- `createProposal`, `createOffer` and `createRequest` of CredentialFormatCoordinator.ts.
use test_lib.Common.{String, Option, none, some, List, []}
use test_lib.Exec.{Exec, pure, ◌>>=◌, ◌>>◌}
use test_lib.Message.{
  MessageClass, propose_credential, offer_credential, request_credential, AgentMessage,
  new_agent_message, set_thread, PreviewAttribute,
}
use test_lib.Storage.DidComm
use test_lib.Storage.DidComm.{sender, Stores, Externals}
use test_lib.Credential.Record.{Contents, CredentialExchangeRecord}
use test_lib.Credential.Format.{FormatPayload, CredentialFormatService}
use test_lib.Credential.Coordinator.Build.{Draft, empty_draft, build, on_rest}

-- the new message of a class, from what the loop has gathered
abbrev pub new_message : MessageClass → String → Option String → Draft → AgentMessage
new_message message_class id comment draft = record (new_agent_message message_class id) {
  comment = comment;
  formats = draft.formats;
  attachments = draft.attachments;
}

-- `credentialRecord.credentialAttributes = credentialPreview?.attributes`
abbrev pub with_attributes : Draft → Contents
with_attributes draft = record (draft.contents) { credential_attributes = draft.preview }

-- `if (!credentialPreview)`: a blank preview
abbrev preview_or_blank : Option (List PreviewAttribute) → List PreviewAttribute
preview_or_blank none = []
preview_or_blank (some attributes) = attributes

module _ {MS X : Type 0} (externals : Externals MS X) where
  -- the offer with its preview, a blank one if no format service gave attributes
  unfoldable pub send_offer :
      CredentialExchangeRecord
      → Option String
      → Draft
      → Exec (Stores MS X) (Contents × AgentMessage)
  send_offer r comment draft = do
    id ← DidComm.new_uuid externals
    let plain = new_message offer_credential id comment draft
    let message =
        set_thread r.thread_id
          (record plain { credential_preview = some (preview_or_blank draft.preview) })
    DidComm.save_or_update_agent_message externals sender message r.id
    pure (with_attributes draft, message)

  unfoldable pub create_proposal :
      FormatPayload
      → List (CredentialFormatService X)
      → CredentialExchangeRecord
      → Option String
      → Exec (Stores MS X) (Contents × AgentMessage)
  create_proposal credential_formats format_services r comment = do
    draft ←
        build (λ service r'. on_rest (service.create_proposal r' credential_formats)) r
          format_services (empty_draft r.contents)
    let plain = new_message propose_credential r.thread_id comment draft
    let message = set_thread r.thread_id (record plain { credential_preview = draft.preview })
    DidComm.save_or_update_agent_message externals sender message r.id
    pure (with_attributes draft, message)

  unfoldable pub create_offer :
      FormatPayload
      → List (CredentialFormatService X)
      → CredentialExchangeRecord
      → Option String
      → Exec (Stores MS X) (Contents × AgentMessage)
  create_offer credential_formats format_services r comment = do
    draft ←
        build (λ service r'. on_rest (service.create_offer r' credential_formats)) r format_services
          (empty_draft r.contents)
    send_offer r comment draft

  unfoldable pub create_request :
      FormatPayload
      → List (CredentialFormatService X)
      → CredentialExchangeRecord
      → Option String
      → Exec (Stores MS X) (Contents × AgentMessage)
  create_request credential_formats format_services r comment = do
    draft ←
        build (λ service r'. on_rest (service.create_request r' credential_formats)) r
          format_services (empty_draft r.contents)
    id ← DidComm.new_uuid externals
    let message = set_thread r.thread_id (new_message request_credential id comment draft)
    DidComm.save_or_update_agent_message externals sender message r.id
    pure (draft.contents, message)
