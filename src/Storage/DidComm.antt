-- ===== src/Storage/DidComm.antt =====
-- src/storage/didcomm: the messages of an exchange, stored beside its record
-- (DidCommMessageRecord.ts, DidCommMessageRole.ts, DidCommMessageRepository.ts).
pub mod Reads
use test_lib.Common.{String, true, false, Option, none, some}
use test_lib.Exec.{Result, ok, err, Exec, aries_framework_error, lift, zoom, ◌>>=◌}
use test_lib.Message.{MessageClass, AgentMessage, can_handle}
use test_lib.Storage.Service.{StorageService}
use test_lib.Storage.Repository
use test_lib.Storage.Repository.{Repo}

pub data DidCommMessageRole : Type 0 where
  sender receiver : DidCommMessageRole

pub record DidCommMessageRecord : Type 0 where
  pub id : String
  pub role : DidCommMessageRole
  pub message : AgentMessage
  pub associated_record_id : Option String

-- The query of the repository: the associated record, and the name, protocol name and major
-- version of a message class, if one is asked for.
pub record MessageQuery : Type 0 where
  pub associated_record_id : String
  pub message_class : Option MessageClass

-- The message repository, and the rest of the agent: the wallet, the stores that the format
-- services keep, and the source of the random identifiers.
pub record Stores (MS X : Type 0) : Type 0 where
  pub messages : Repo MS DidCommMessageRecord
  pub rest : X

-- What is outside of the repository: the implementation of the storage, and `uuid()`.
pub record Externals (MS X : Type 0) : Type 0 where
  pub message_storage : StorageService MS DidCommMessageRecord MessageQuery
  pub uuid : X → String × X

-- `getMessageInstance` of DidCommMessageRecord.ts
unfoldable pub get_message_instance : MessageClass → DidCommMessageRecord → Result AgentMessage
unfolding can_handle
get_message_instance message_class r = elim (can_handle message_class r.message.message_class) [
  | true ↦ ok r.message
  | false ↦
      err
        (aries_framework_error "Provided message class type does not match type of stored message")
]

-- `record?.getMessageInstance(messageClass) ?? null`
unfoldable pub instance_or_null :
    MessageClass → Option DidCommMessageRecord → Result (Option AgentMessage)
unfolding get_message_instance
instance_or_null message_class none = ok none
instance_or_null message_class (some r) = elim (get_message_instance message_class r) [
  | ok message ↦ ok (some message)
  | err e ↦ err e
]

module _ {MS X : Type 0} (externals : Externals MS X) where
  open externals use {message_storage}

  abbrev on_messages : {A : Type 0} → Exec (Repo MS DidCommMessageRecord) A → Exec (Stores MS X) A
  on_messages = zoom (λ s. s.messages) (λ r s. record s { messages = r })

  unfoldable pub new_uuid : Exec (Stores MS X) String
  new_uuid s = let (id, rest) = externals.uuid s.rest in (ok id, record s { rest = rest })

  unfoldable pub save_agent_message :
      DidCommMessageRole → AgentMessage → String → Exec (Stores MS X) Unit
  save_agent_message role message associated_record_id = do
    id ← new_uuid
    on_messages (
        Repository.save message_storage (record {
          id = id;
          role = role;
          message = message;
          associated_record_id = some associated_record_id;
        }))

  abbrev save_or_update :
      DidCommMessageRole
      → AgentMessage
      → String
      → Option DidCommMessageRecord
      → Exec (Stores MS X) Unit
  save_or_update role message associated_record_id none =
      save_agent_message role message associated_record_id
  save_or_update role message associated_record_id (some r) =
      on_messages (Repository.update message_storage (record r { message = message; role = role }))

  unfoldable pub save_or_update_agent_message :
      DidCommMessageRole → AgentMessage → String → Exec (Stores MS X) Unit
  save_or_update_agent_message role message associated_record_id = do
    stored ← on_messages (
        Repository.find_single_by_query message_storage (record {
          associated_record_id = associated_record_id;
          message_class = some message.message_class;
        }))
    save_or_update role message associated_record_id stored

  unfoldable pub get_agent_message : String → MessageClass → Exec (Stores MS X) AgentMessage
  get_agent_message associated_record_id message_class = do
    stored ← on_messages (
        Repository.get_single_by_query message_storage (record {
          associated_record_id = associated_record_id;
          message_class = some message_class;
        }))
    lift (get_message_instance message_class stored)

  unfoldable pub find_agent_message :
      String → MessageClass → Exec (Stores MS X) (Option AgentMessage)
  find_agent_message associated_record_id message_class = do
    stored ← on_messages (
        Repository.find_single_by_query message_storage (record {
          associated_record_id = associated_record_id;
          message_class = some message_class;
        }))
    lift (instance_or_null message_class stored)
