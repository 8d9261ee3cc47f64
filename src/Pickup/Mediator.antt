-- ===== src/Pickup/Mediator.antt =====
-- The mediator's methods: `processBatchPickup` of V1MessagePickupProtocol.ts, and
-- `processStatusRequest`, `processDeliveryRequest` and `processMessagesReceived` of
-- V2MessagePickupProtocol.ts.
pub mod Laws
use test_lib.Common.{
  ℕ, String, Bool, true, false, Option, none, some, List, [], ◌∷◌, not, length, is_truthy, map,
}
use test_lib.Exec.{Exec, ok, pure, assert, gets, ◌>>=◌, ◌>>◌}
use test_lib.Message.{thread_or_id}
use test_lib.Connection.Inbound.{InboundMessageContext, assert_ready_connection}
use test_lib.Pickup.Slices.{ℤ, pos}
use test_lib.Pickup.Queue.{EncryptedMessage, MessageRepository}
use test_lib.Pickup.Messages.{
  BatchPickupMessage, BatchMessage, StatusRequestMessage, StatusMessage, DeliveryRequestMessage,
  DeliveredAttachment, MessageDeliveryMessage, MessagesReceivedMessage, json,
}

-- The repository of the queued messages, and the rest of the agent with the source of its uuids.
pub record MediatorState (Q X : Type 0) : Type 0 where
  pub queues : Q
  pub rest : X

-- `messageIdList ? messageIdList.length : undefined`
abbrev pub count_of : Option (List String) → Option ℤ
count_of none = none
count_of (some ids) = some (pos (length ids))

module _ {Q X : Type 0} (repository : MessageRepository Q) (uuid : X → String × X) where
  open repository use {get_available_message_count, take_from_queue}

  unfoldable pub new_uuid : Exec (MediatorState Q X) String
  new_uuid s = let (id, rest) = uuid s.rest in (ok id, record s { rest = rest })

  abbrev pub count : String → Exec (MediatorState Q X) ℕ
  count connection = gets (λ s. get_available_message_count s.queues connection)

  abbrev pub take_messages :
      String → Option ℤ → Bool → Exec (MediatorState Q X) (List EncryptedMessage)
  take_messages connection limit keep_messages s =
      let (messages, queues) = take_from_queue s.queues connection limit keep_messages in
      (ok messages, record s { queues = queues })

  -- `messages.map((msg) => new ...)`: each with a new id
  unfoldable pub with_ids :
      List EncryptedMessage → Exec (MediatorState Q X) (List (String × EncryptedMessage))
  with_ids [] = pure []
  with_ids (message ∷ messages) = do
    id ← new_uuid
    rest ← with_ids messages
    pure ((id, message) ∷ rest)

  unfoldable pub process_batch_pickup :
      InboundMessageContext BatchPickupMessage → Exec (MediatorState Q X) BatchMessage
  process_batch_pickup context = do
    connection ← assert_ready_connection context
    messages ← take_messages connection.id (some context.message.batch_size) false
    batch_messages ← with_ids messages
    id ← new_uuid
    let message : BatchMessage = record { id = id; messages = batch_messages }
    pure message

  unfoldable pub status : String → ℕ → Exec (MediatorState Q X) StatusMessage
  status thread message_count = do
    id ← new_uuid
    let message : StatusMessage = record {
      id = id;
      thread = some thread;
      recipient_key = none;
      message_count = pos message_count;
    }
    pure message

  unfoldable pub process_status_request :
      InboundMessageContext StatusRequestMessage → Exec (MediatorState Q X) StatusMessage
  process_status_request context = do
    let message = context.message
    connection ← assert_ready_connection context
    assert (not (is_truthy message.recipient_key)) "recipient_key parameter not supported"
    message_count ← count connection.id
    status (thread_or_id message.thread message.id) message_count

-- `new Attachment({ data: { json: msg } })`
abbrev pub as_attachment : String × EncryptedMessage → DeliveredAttachment
as_attachment (id, message) = record { id = id; data_of = json message }

-- the answer to a delivery request
pub data DeliveryAnswer : Type 0 where
  delivery : MessageDeliveryMessage → DeliveryAnswer
  nothing_to_deliver : StatusMessage → DeliveryAnswer

module _ {Q X : Type 0} (repository : MessageRepository Q) (uuid : X → String × X) where
  -- the delivery, or a status if there is nothing to deliver
  abbrev pub delivery_or_status :
      String → List (String × EncryptedMessage) → Exec (MediatorState Q X) DeliveryAnswer
  delivery_or_status thread [] = do
    message ← status repository uuid thread 0
    pure (nothing_to_deliver message)
  delivery_or_status thread messages = do
    id ← new_uuid repository uuid
    pure (
        delivery (record {
          id = id;
          thread = some thread;
          appended_attachments = some (map as_attachment messages);
        }))

  -- The messages stay in the queue.
  unfoldable pub process_delivery_request :
      InboundMessageContext DeliveryRequestMessage → Exec (MediatorState Q X) DeliveryAnswer
  process_delivery_request context = do
    let message = context.message
    connection ← assert_ready_connection context
    assert (not (is_truthy message.recipient_key)) "recipient_key parameter not supported"
    messages ← take_messages repository uuid connection.id (some message.limit) true
    attachments ← with_ids repository uuid messages
    delivery_or_status (thread_or_id message.thread message.id) attachments

  -- As many messages as there are ids leave the queue, from its front.
  unfoldable pub process_messages_received :
      InboundMessageContext MessagesReceivedMessage → Exec (MediatorState Q X) StatusMessage
  process_messages_received context = do
    let message = context.message
    connection ← assert_ready_connection context
    take_messages repository uuid connection.id (count_of message.message_id_list) false
    message_count ← count repository uuid connection.id
    status repository uuid (thread_or_id message.thread message.id) message_count
