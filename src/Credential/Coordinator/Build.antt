-- ===== src/Credential/Coordinator/Build.antt =====
-- The loops of CredentialFormatCoordinator.ts over the format services.
pub mod Laws
pub mod Found
use test_lib.Common.{Option, none, List, [], ◌∷◌, ◌++◌, or_else}
use test_lib.Exec.{Exec, pure, zoom, ◌>>=◌}
use test_lib.Message.{FormatSpec, Attachment, PreviewAttribute}
use test_lib.Storage.DidComm.{Stores}
use test_lib.Credential.Record.{Contents, CredentialExchangeRecord}
use test_lib.Credential.Format.{CreateReturn, CredentialFormatService}

-- What a loop that creates a message has gathered.
pub record Draft : Type 0 where
  pub formats : List FormatSpec
  pub attachments : List Attachment
  pub preview : Option (List PreviewAttribute)
  pub contents : Contents

abbrev pub empty_draft : Contents → Draft
empty_draft contents = record {
  formats = [];
  attachments = [];
  preview = none;
  contents = contents;
}

-- the body of the loop, after the call of the format service
unfoldable pub add : CreateReturn → Draft → Draft
add made draft = record {
  formats = draft.formats ++ made.format ∷ [];
  attachments = draft.attachments ++ made.attachment ∷ [];
  preview = or_else made.preview_attributes draft.preview;
  contents = made.contents;
}

module _ {MS X : Type 0} where
  -- a call of a format service
  abbrev pub on_rest : {A : Type 0} → Exec X A → Exec (Stores MS X) A
  on_rest = zoom (λ s. s.rest) (λ x s. record s { rest = x })

  -- `for (const formatService of formatServices)`, in the methods that create a message
  unfoldable pub build :
      (CredentialFormatService X → CredentialExchangeRecord → Exec (Stores MS X) CreateReturn)
      → CredentialExchangeRecord
      → List (CredentialFormatService X)
      → Draft
      → Exec (Stores MS X) Draft
  build create r [] draft = pure draft
  build create r (service ∷ services) draft = do
    made ← create service (record r { contents = draft.contents })
    build create r services (add made draft)

  -- the same, in the methods that take a message in
  unfoldable pub process_each :
      (CredentialFormatService X → CredentialExchangeRecord → Exec (Stores MS X) Contents)
      → CredentialExchangeRecord
      → List (CredentialFormatService X)
      → Contents
      → Exec (Stores MS X) Contents
  process_each process r [] contents = pure contents
  process_each process r (service ∷ services) contents = do
    contents' ← process service (record r { contents = contents })
    process_each process r services contents'
