-- ===== src/Credential/Coordinator/Attachments.antt =====
-- `getAttachmentForService` and `getAttachmentIdForService` of CredentialFormatCoordinator.ts.
use test_lib.Common.{String, List}
use test_lib.Exec.{Result}
use test_lib.Message.{FormatSpec, Attachment}
use test_lib.Exchange.Attachments.{get_attachment_id_for, get_attachment_for}
use test_lib.Credential.Format.{CredentialFormatService}

module _ {X : Type 0} where
  abbrev pub get_attachment_id_for_service :
      CredentialFormatService X → List FormatSpec → Result String
  get_attachment_id_for_service service = get_attachment_id_for service.supports_format

  abbrev pub get_attachment_for_service :
      CredentialFormatService X → List FormatSpec → List Attachment → Result Attachment
  get_attachment_for_service service = get_attachment_for service.supports_format
