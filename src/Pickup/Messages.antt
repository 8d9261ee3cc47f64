-- ===== src/Pickup/Messages.antt =====
-- The messages of modules/message-pickup/protocol/v1/messages and protocol/v2/messages.
pub mod Laws
use test_lib.Common.{String, Option, none, some, List}
use test_lib.Connection.Record.{ConnectionRecord}
use test_lib.Connection.Inbound.{InboundMessageContext}
use test_lib.Pickup.Slices.{ℤ}
use test_lib.Pickup.Queue.{EncryptedMessage}

pub record BatchPickupMessage : Type 0 where
  pub id : String
  pub batch_size : ℤ

-- each message of the batch has an id of its own
pub record BatchMessage : Type 0 where
  pub id : String
  pub messages : List (String × EncryptedMessage)

pub record StatusRequestMessage : Type 0 where
  pub id : String
  pub thread : Option String
  pub recipient_key : Option String

pub record StatusMessage : Type 0 where
  pub id : String
  pub thread : Option String
  pub recipient_key : Option String
  pub message_count : ℤ

pub record DeliveryRequestMessage : Type 0 where
  pub id : String
  pub thread : Option String
  pub recipient_key : Option String
  pub limit : ℤ

-- `data.base64` or `data.json` of an attachment, if it has one of them
pub data AttachmentData : Type 0 where
  base64 : String → AttachmentData
  json : EncryptedMessage → AttachmentData
  no_data : AttachmentData

pub record DeliveredAttachment : Type 0 where
  pub id : String
  pub data_of : AttachmentData

pub record MessageDeliveryMessage : Type 0 where
  pub id : String
  pub thread : Option String
  pub appended_attachments : Option (List DeliveredAttachment)

pub record MessagesReceivedMessage : Type 0 where
  pub id : String
  pub thread : Option String
  pub message_id_list : Option (List String)

-- the message on the connection of the agent that receives it
abbrev pub on : {M : Type 0} → ConnectionRecord → M → InboundMessageContext M
on connection message = record {
  message = message;
  connection = some connection;
  sender_key = none;
  recipient_key = none;
}
