-- ===== src/Proof/Format.antt =====
-- modules/proofs/formats/ProofFormatService.ts: what the protocol calls of a proof format
-- (anoncreds, indy, ...). The services are parameters. A method acts on the rest of the agent, `X`,
-- and reads the exchange record.
use test_lib.Common.{String, Bool, Option, List}
use test_lib.Exec.{Exec}
use test_lib.Message.{FormatSpec, Attachment}
use test_lib.Proof.Record.{ProofExchangeRecord}

-- `proofFormats`: the options of each format under its key, as a text
abbrev pub ProofPayload : Type 0
ProofPayload = List (String × String)

-- `ProofFormatCreateReturn`
pub record ProofCreateReturn : Type 0 where
  pub format : FormatSpec
  pub attachment : Attachment

pub record ProofFormatService (X : Type 0) : Type 0 where
  pub format_key : String
  pub supports_format : String → Bool
  pub create_proposal : ProofExchangeRecord → ProofPayload → Exec X ProofCreateReturn
  pub process_proposal : ProofExchangeRecord → Attachment → Exec X Unit
  pub accept_proposal :
      ProofExchangeRecord → Option ProofPayload → Attachment → Exec X ProofCreateReturn
  pub create_request : ProofExchangeRecord → ProofPayload → Exec X ProofCreateReturn
  pub process_request : ProofExchangeRecord → Attachment → Exec X Unit
  -- the attachment of the request and that of the proposal
  pub accept_request :
      ProofExchangeRecord
      → Option ProofPayload
      → Attachment
      → Option Attachment
      → Exec X ProofCreateReturn
  -- the attachment of the presentation and that of the request; whether the proof is valid
  pub process_presentation : ProofExchangeRecord → Attachment → Attachment → Exec X Bool
  -- the attachment of the request and that of the proposal; the credentials as a text
  pub get_credentials_for_request :
      ProofExchangeRecord → Option ProofPayload → Attachment → Option Attachment → Exec X String
  pub select_credentials_for_request :
      ProofExchangeRecord → Option ProofPayload → Attachment → Option Attachment → Exec X String
  -- the attachments of the request and of the proposal
  pub should_auto_respond_to_proposal : ProofExchangeRecord → Attachment → Attachment → Exec X Bool
  pub should_auto_respond_to_request : ProofExchangeRecord → Attachment → Attachment → Exec X Bool
  -- the attachments of the presentation, of the request and of the proposal
  pub should_auto_respond_to_presentation :
      ProofExchangeRecord → Attachment → Attachment → Option Attachment → Exec X Bool
