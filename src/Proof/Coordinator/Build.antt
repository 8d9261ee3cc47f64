-- ===== src/Proof/Coordinator/Build.antt =====
-- The loops of ProofFormatCoordinator.ts over the format services, and the attachments that they
-- hand to a service.
use test_lib.Common.{
  String, Bool, true, Option, none, some, List, [], ◌∷◌, ◌++◌, ◌==◌, ◌&&◌, if◌then◌else◌,
}
use test_lib.Exec.{Exec, pure, lift, zoom, ◌>>=◌, ◌>>◌}
use test_lib.Message.{FormatSpec, Attachment, AgentMessage}
use test_lib.Storage.DidComm.{Stores}
use test_lib.Exchange.Attachments.{get_attachment_for}
use test_lib.Proof.Format.{ProofCreateReturn, ProofFormatService}

-- What a loop that creates a message has gathered.
pub record Draft : Type 0 where
  pub formats : List FormatSpec
  pub attachments : List Attachment

abbrev pub empty_draft : Draft
empty_draft = record { formats = []; attachments = [] }

-- the body of the loop, after the call of the format service
unfoldable pub add : ProofCreateReturn → Draft → Draft
add made draft = record {
  formats = draft.formats ++ made.format ∷ [];
  attachments = draft.attachments ++ made.attachment ∷ [];
}

-- `results[key] = value`
unfoldable pub assign : String → String → List (String × String) → List (String × String)
assign key value [] = (key, value) ∷ []
assign key value ((k, v) ∷ results) =
    if k == key then (k, value) ∷ results else (k, v) ∷ assign key value results

-- `results.every((isValid) => isValid === true)`
unfoldable pub every : List Bool → Bool
every [] = true
every (is_valid ∷ results) = is_valid && every results

module _ {MS X : Type 0} where
  -- a call of a format service
  abbrev pub on_rest : {A : Type 0} → Exec X A → Exec (Stores MS X) A
  on_rest = zoom (λ s. s.rest) (λ x s. record s { rest = x })

  -- `getAttachmentForService` of a message
  abbrev pub attachment_of : ProofFormatService X → AgentMessage → Exec (Stores MS X) Attachment
  attachment_of service message =
      lift (get_attachment_for service.supports_format message.formats message.attachments)

  -- the same in a message that may not be there
  abbrev pub attachment_if_sent :
      ProofFormatService X → Option AgentMessage → Exec (Stores MS X) (Option Attachment)
  attachment_if_sent service none = pure none
  attachment_if_sent service (some message) = do
    attachment ← attachment_of service message
    pure (some attachment)

  -- `for (const formatService of formatServices)`, in the methods that create a message
  unfoldable pub build :
      (ProofFormatService X → Exec (Stores MS X) ProofCreateReturn)
      → List (ProofFormatService X)
      → Draft
      → Exec (Stores MS X) Draft
  build create [] draft = pure draft
  build create (service ∷ services) draft = do
    made ← create service
    build create services (add made draft)

  -- the same, in the methods that take a message in
  unfoldable pub process_each :
      (ProofFormatService X → Exec (Stores MS X) Unit)
      → List (ProofFormatService X)
      → Exec (Stores MS X) Unit
  process_each process [] = pure tt
  process_each process (service ∷ services) = do process service; process_each process services

  -- the same, in `processPresentation`
  unfoldable pub verify_each :
      (ProofFormatService X → Exec (Stores MS X) Bool)
      → List (ProofFormatService X)
      → List Bool
      → Exec (Stores MS X) (List Bool)
  verify_each verify [] results = pure results
  verify_each verify (service ∷ services) results = do
    is_valid ← verify service
    verify_each verify services (results ++ is_valid ∷ [])

  -- the same, in the methods that gather a result under each format key
  unfoldable pub gather :
      (ProofFormatService X → Exec (Stores MS X) String)
      → List (ProofFormatService X)
      → List (String × String)
      → Exec (Stores MS X) (List (String × String))
  gather ask [] results = pure results
  gather ask (service ∷ services) results = do
    result ← ask service
    gather ask services (assign service.format_key result results)
