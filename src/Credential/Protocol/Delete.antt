-- ===== src/Credential/Protocol/Delete.antt =====
-- `delete` of BaseCredentialProtocol.ts, with its options, and the plain methods of that class over
-- the repository.
pub mod Laws
use test_lib.Common.{String, Bool, true, false, Option, none, some, List, [], ◌∷◌, ◌==◌, find}
use test_lib.Exec.{Result, ok, err, aries_framework_error, Exec, pure, lift, zoom, ◌>>=◌, ◌>>◌}
use test_lib.Storage.Repository
use test_lib.Storage.Repository.{Repo}
use test_lib.Storage.DidComm.{DidCommMessageRecord, Stores}
use test_lib.Credential.Record.{CredentialExchangeRecord, CredentialRecordBinding}
use test_lib.Credential.Format.{CredentialFormatService}
use test_lib.Credential.Coordinator.Build.{on_rest}
use test_lib.Credential.Protocol.Base.{World, Config, on_records, on_stores}

pub record DeleteCredentialOptions : Type 0 where
  pub delete_associated_credentials : Option Bool
  pub delete_associated_didcomm_messages : Option Bool

-- `options?.… ?? true`
abbrev option_or_true : Option Bool → Bool
option_or_true none = true
option_or_true (some b) = b

abbrev deletes_credentials : Option DeleteCredentialOptions → Bool
deletes_credentials none = true
deletes_credentials (some options) = option_or_true options.delete_associated_credentials

abbrev deletes_messages : Option DeleteCredentialOptions → Bool
deletes_messages none = true
deletes_messages (some options) = option_or_true options.delete_associated_didcomm_messages

module _ {CS MS X : Type 0} (config : Config CS MS X) where
  open config use {credential_storage, externals, credential_formats}

  unfoldable pub get_format_service_for_record_type : String → Result (CredentialFormatService X)
  get_format_service_for_record_type record_type =
      elim (find
        (λ (service : CredentialFormatService X). service.credential_record_type == record_type)
        credential_formats) [
          | none ↦ err (aries_framework_error "No format service found for credential record type")
          | some service ↦ ok service
        ]

  -- the loop over the credentials of the record
  unfoldable pub delete_credentials : List CredentialRecordBinding → Exec (Stores MS X) Unit
  delete_credentials [] = pure tt
  delete_credentials (credential ∷ credentials) = do
    service ← lift (get_format_service_for_record_type credential.credential_record_type)
    on_rest (service.delete_credential_by_id credential.credential_record_id)
    delete_credentials credentials

  abbrev on_messages : {A : Type 0} → Exec (Repo MS DidCommMessageRecord) A → Exec (Stores MS X) A
  on_messages = zoom (λ s. s.messages) (λ r s. record s { messages = r })

  -- the loop over the messages of the exchange
  unfoldable pub delete_messages : List DidCommMessageRecord → Exec (Stores MS X) Unit
  delete_messages [] = pure tt
  delete_messages (message ∷ messages) = do
    on_messages (Repository.delete externals.message_storage message)
    delete_messages messages

  abbrev pub when : Bool → Exec (Stores MS X) Unit → Exec (Stores MS X) Unit
  when true m = m
  when false m = pure tt

  -- what follows the deletion of the record itself
  unfoldable pub delete_associated :
      CredentialExchangeRecord → Option DeleteCredentialOptions → Exec (Stores MS X) Unit
  delete_associated r options = do
    when (deletes_credentials options) (delete_credentials r.contents.credentials)
    when (deletes_messages options) (do
      messages ← on_messages (
          Repository.find_by_query externals.message_storage
            (record { associated_record_id = r.id; message_class = none }))
      delete_messages messages)

  unfoldable pub delete :
      CredentialExchangeRecord → Option DeleteCredentialOptions → Exec (World CS MS X) Unit
  delete r options = do
    on_records (Repository.delete credential_storage r)
    on_stores (delete_associated r options)

  unfoldable pub get_by_id : String → Exec (World CS MS X) CredentialExchangeRecord
  get_by_id id = on_records (Repository.get_by_id credential_storage id)

  unfoldable pub find_by_id : String → Exec (World CS MS X) (Option CredentialExchangeRecord)
  find_by_id id = on_records (Repository.find_by_id credential_storage id)

  unfoldable pub get_all : Exec (World CS MS X) (List CredentialExchangeRecord)
  get_all = on_records (Repository.get_all credential_storage)

  unfoldable pub update : CredentialExchangeRecord → Exec (World CS MS X) Unit
  update r = on_records (Repository.update credential_storage r)
