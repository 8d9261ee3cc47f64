-- ===== src/Credential/Format.antt =====
-- modules/credentials/formats/CredentialFormatService.ts: what the protocol calls of a credential
-- format (anoncreds, ld proof, ...). The services are parameters. A method acts on the rest of the
-- agent, `X`, and returns the fields of the exchange record that it may have written.
use test_lib.Common.{String, Bool, Option, List}
use test_lib.Exec.{Exec}
use test_lib.Message.{FormatSpec, Attachment, PreviewAttribute}
use test_lib.Credential.Record.{Contents, CredentialExchangeRecord}

-- `credentialFormats`: the options of each format under its key, as a text
abbrev pub FormatPayload : Type 0
FormatPayload = List (String × String)

-- `CredentialFormatCreateReturn`; only proposals and offers have preview attributes
pub record CreateReturn : Type 0 where
  pub contents : Contents
  pub format : FormatSpec
  pub attachment : Attachment
  pub preview_attributes : Option (List PreviewAttribute)

pub record CredentialFormatService (X : Type 0) : Type 0 where
  pub format_key : String
  pub credential_record_type : String
  pub supports_format : String → Bool
  pub create_proposal : CredentialExchangeRecord → FormatPayload → Exec X CreateReturn
  pub process_proposal : CredentialExchangeRecord → Attachment → Exec X Contents
  pub accept_proposal :
      CredentialExchangeRecord → Option FormatPayload → Attachment → Exec X CreateReturn
  pub create_offer : CredentialExchangeRecord → FormatPayload → Exec X CreateReturn
  pub process_offer : CredentialExchangeRecord → Attachment → Exec X Contents
  pub accept_offer :
      CredentialExchangeRecord → Option FormatPayload → Attachment → Exec X CreateReturn
  pub create_request : CredentialExchangeRecord → FormatPayload → Exec X CreateReturn
  pub process_request : CredentialExchangeRecord → Attachment → Exec X Contents
  -- the attachment of the request and that of the offer
  pub accept_request :
      CredentialExchangeRecord
      → Option FormatPayload
      → Attachment
      → Option Attachment
      → Exec X CreateReturn
  -- the attachment of the credential and that of the request
  pub process_credential : CredentialExchangeRecord → Attachment → Attachment → Exec X Contents
  -- the attachments of the offer and of the proposal
  pub should_auto_respond_to_proposal :
      CredentialExchangeRecord → Attachment → Attachment → Exec X Bool
  pub should_auto_respond_to_offer :
      CredentialExchangeRecord → Attachment → Attachment → Exec X Bool
  -- the attachments of the offer, of the request and of the proposal
  pub should_auto_respond_to_request :
      CredentialExchangeRecord → Attachment → Attachment → Option Attachment → Exec X Bool
  -- the attachments of the offer, of the credential, of the request and of the proposal
  pub should_auto_respond_to_credential :
      CredentialExchangeRecord
      → Option Attachment
      → Attachment
      → Attachment
      → Option Attachment
      → Exec X Bool
  pub delete_credential_by_id : String → Exec X Unit
