-- ===== src/Exchange/Attachments.antt =====
-- How the format coordinators find the attachment of a format service in a message: the id comes
-- from the first format that the service supports.
use test_lib.Common.{String, Bool, none, some, List, ◌==◌, find}
use test_lib.Exec.{Result, ok, err, aries_framework_error}
use test_lib.Message.{FormatSpec, Attachment}

unfoldable pub get_attachment_id_for : (String → Bool) → List FormatSpec → Result String
get_attachment_id_for supports formats =
    elim (find (λ (spec : FormatSpec). supports spec.format) formats) [
      | none ↦ err (aries_framework_error "No attachment found for service")
      | some spec ↦ ok spec.attachment_id
    ]

unfoldable pub get_attachment_for :
    (String → Bool) → List FormatSpec → List Attachment → Result Attachment
unfolding get_attachment_id_for
get_attachment_for supports formats attachments = elim (get_attachment_id_for supports formats) [
  | err e ↦ err e
  | ok attachment_id ↦
      elim (find (λ (attachment : Attachment). attachment.id == attachment_id) attachments) [
        | none ↦ err (aries_framework_error "Attachment not found in attachments")
        | some attachment ↦ ok attachment
      ]
]
