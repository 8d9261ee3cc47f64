-- ===== src/Pickup/Recipient.antt =====
-- The recipient's methods: `pickupMessages` of both versions, and `processStatus` and
-- `processDelivery` of V2MessagePickupProtocol.ts.
pub mod Laws
use test_lib.Common.{
  ℕ, zero, String, Bool, true, false, Option, none, some, List, [], ◌∷◌, ◌++◌, ltb, if◌then◌else◌,
}
use test_lib.Exec.{
  Exec, Result, ok, err, Error, aries_framework_error, external, pure, throw, lift, zoom, ◌>>=◌,
  ◌>>◌,
}
use test_lib.Connection.Record.{ConnectionRecord, assert_ready}
use test_lib.Connection.Inbound.{InboundMessageContext, assert_ready_connection}
use test_lib.Connection.Service.{ConnectionWorld, TrustPingMessage, create_trust_ping}
use test_lib.Storage.Service.{StorageService}
use test_lib.Storage.DidComm
use test_lib.Storage.DidComm.{Externals}
use test_lib.Exchange.{on_stores}
use test_lib.Pickup.Slices.{ℤ, pos, negsuc}
use test_lib.Pickup.Queue.{EncryptedMessage}
use test_lib.Pickup.Messages.{
  BatchPickupMessage, StatusRequestMessage, StatusMessage, DeliveryRequestMessage, AttachmentData,
  base64, json, no_data, DeliveredAttachment, MessageDeliveryMessage, MessagesReceivedMessage,
}

-- The agent with its connections, the packed messages that it has told itself of by
-- `AgentMessageReceived`, and the trust pings that it has sent.
pub record RecipientState (CS MS X : Type 0) : Type 0 where
  pub world : ConnectionWorld CS MS X
  pub received : List EncryptedMessage
  pub pings : List TrustPingMessage

-- What the recipient is given: the storage of its connections, the other outside parts, the module's
-- setting, and the decoder of base64.
pub record RecipientConfig (CS Q MS X : Type 0) : Type 0 where
  pub connection_storage : StorageService CS ConnectionRecord Q
  pub externals : Externals MS X
  pub maximum_batch_size : Option ℕ
  pub from_base64 : String → Result EncryptedMessage

-- `this.options.maximumBatchSize ?? 10`
abbrev pub batch_size_or_default : Option ℕ → ℕ
batch_size_or_default none = 10
batch_size_or_default (some size) = size

-- `messageCount < maximum ? messageCount : maximum`
unfoldable pub limit_of : ℤ → ℕ → ℤ
limit_of (pos count) maximum = if ltb count maximum then pos count else pos maximum
limit_of (negsuc n) maximum = negsuc n

-- `messageCount === 0`
abbrev pub is_zero : ℤ → Bool
is_zero (pos zero) = true
is_zero _ = false

-- `getDataAsJson`
unfoldable pub get_data_as_json :
    (String → Result EncryptedMessage) → AttachmentData → Result EncryptedMessage
get_data_as_json from_base64 (base64 text) = from_base64 text
get_data_as_json from_base64 (json message) = ok message
get_data_as_json from_base64 no_data =
    err (aries_framework_error "No attachment data found in `json` or `base64` data fields.")

module _ {CS Q MS X : Type 0} (config : RecipientConfig CS Q MS X) where
  open config use {connection_storage, externals, maximum_batch_size, from_base64}

  abbrev on_world :
      {A : Type 0} → Exec (ConnectionWorld CS MS X) A → Exec (RecipientState CS MS X) A
  on_world = zoom (λ s. s.world) (λ w s. record s { world = w })

  abbrev pub new_id : Exec (RecipientState CS MS X) String
  new_id = on_world (on_stores (DidComm.new_uuid externals))

  -- of version 1
  unfoldable pub pickup_batch :
      ConnectionRecord → Option ℤ → Exec (RecipientState CS MS X) BatchPickupMessage
  pickup_batch connection batch_size = do
    assert_ready connection
    id ← new_id
    let message : BatchPickupMessage = record {
      id = id;
      batch_size = elim batch_size [
        | none ↦ pos (batch_size_or_default maximum_batch_size)
        | some size ↦ size
      ];
    }
    pure message

  -- of version 2
  unfoldable pub pickup_messages :
      ConnectionRecord → Option String → Exec (RecipientState CS MS X) StatusRequestMessage
  pickup_messages connection recipient_key = do
    assert_ready connection
    id ← new_id
    let message : StatusRequestMessage = record {
      id = id;
      thread = none;
      recipient_key = recipient_key;
    }
    pure message

  -- `messageSender.sendMessage`, as far as this code sees it
  -- `messageSender.sendMessage` of the ping; the model takes the sending to succeed
  abbrev send_ping : TrustPingMessage → Exec (RecipientState CS MS X) Unit
  send_ping message s = (ok tt, record s { pings = s.pings ++ message ∷ [] })

  -- what `processStatus` does with the count: a ping that keeps the socket alive, or a request
  abbrev pub ping_or_request :
      Bool
      → ConnectionRecord
      → StatusMessage
      → Exec (RecipientState CS MS X) (Option DeliveryRequestMessage)
  ping_or_request true connection status = do
    (_, message) ← on_world (create_trust_ping connection_storage externals connection false none)
    send_ping message
    pure none
  ping_or_request false connection status = do
    id ← new_id
    pure (
        some (record {
          id = id;
          thread = none;
          recipient_key = status.recipient_key;
          limit = limit_of status.message_count (batch_size_or_default maximum_batch_size);
        }))

  unfoldable pub process_status :
      InboundMessageContext StatusMessage
      → Exec (RecipientState CS MS X) (Option DeliveryRequestMessage)
  process_status context = do
    connection ← assert_ready_connection context
    ping_or_request (is_zero context.message.message_count) connection context.message

  -- the event `AgentMessageReceived`
  abbrev emit_received : EncryptedMessage → Exec (RecipientState CS MS X) Unit
  emit_received message s = (ok tt, record s { received = s.received ++ message ∷ [] })

  -- the loop over the attachments
  unfoldable pub receive_each :
      List DeliveredAttachment → List String → Exec (RecipientState CS MS X) (List String)
  unfolding get_data_as_json
  receive_each [] ids = pure ids
  receive_each (attachment ∷ attachments) ids = do
    message ← lift (get_data_as_json from_base64 attachment.data_of)
    emit_received message
    receive_each attachments (ids ++ attachment.id ∷ [])

  abbrev pub receive_attachments :
      Option (List DeliveredAttachment) → Exec (RecipientState CS MS X) (List String)
  receive_attachments none = throw (aries_framework_error "Error processing attachments")
  receive_attachments (some attachments) = receive_each attachments []

  unfoldable pub process_delivery :
      InboundMessageContext MessageDeliveryMessage
      → Exec (RecipientState CS MS X) MessagesReceivedMessage
  process_delivery context = do
    assert_ready_connection context
    ids ← receive_attachments context.message.appended_attachments
    id ← new_id
    let message : MessagesReceivedMessage = record {
      id = id;
      thread = none;
      message_id_list = some ids;
    }
    pure message
