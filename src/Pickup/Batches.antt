-- ===== src/Pickup/Batches.antt =====
-- A pickup of version 1, between a recipient and its mediator: the request of
-- V1MessagePickupProtocol.ts, and the handlers of modules/message-pickup/protocol/v1/handlers.
pub mod Laws
use test_lib.Common.{String, Option, List, [], ◌∷◌, ◌++◌, map}
use test_lib.Exec.{Exec, ok, ◌>>=◌, ◌>>◌}
use test_lib.Connection.Record.{ConnectionRecord}
use test_lib.Connection.Inbound.{InboundMessageContext, assert_ready_connection}
use test_lib.Pickup.Slices.{ℤ}
use test_lib.Pickup.Queue.{EncryptedMessage, MessageRepository}
use test_lib.Pickup.Messages.{BatchPickupMessage, BatchMessage, on}
use test_lib.Pickup.Mediator.{MediatorState, process_batch_pickup}
use test_lib.Pickup.Recipient.{RecipientState, RecipientConfig, pickup_batch}
use test_lib.Pickup.Rounds.{PickupState, at_mediator, at_recipient}

module _ {CS MS X : Type 0} where
  -- `forEach`: an event `AgentMessageReceived` for each message
  unfoldable pub emit_each : List EncryptedMessage → Exec (RecipientState CS MS X) Unit
  emit_each [] s = (ok tt, s)
  emit_each (message ∷ messages) s =
      emit_each messages (record s { received = s.received ++ message ∷ [] })

  -- `handle` of V1BatchHandler.ts
  unfoldable pub handle_batch :
      InboundMessageContext BatchMessage → Exec (RecipientState CS MS X) Unit
  handle_batch context = do
    assert_ready_connection context
    emit_each (map (λ p. p.1) context.message.messages)

module _ {Q Y : Type 0} (repository : MessageRepository Q) (uuid : Y → String × Y) where
  -- `handle` of V1BatchPickupHandler.ts
  unfoldable pub handle_batch_pickup :
      InboundMessageContext BatchPickupMessage → Exec (MediatorState Q Y) BatchMessage
  handle_batch_pickup context = do
    assert_ready_connection context
    process_batch_pickup repository uuid context

module _ {Q CS CQ MS X Y : Type 0} (repository : MessageRepository Q) (uuid : Y → String × Y)
    (config : RecipientConfig CS CQ MS X) (of_mediator of_recipient : ConnectionRecord) where
  -- the request, the batch and its messages
  unfoldable pub batch_pickup : Option ℤ → Exec (PickupState Q CS MS X Y) Unit
  batch_pickup batch_size = do
    message ←
        at_recipient repository uuid config of_mediator of_recipient
          (pickup_batch config of_recipient batch_size)
    batch ←
        at_mediator repository uuid config of_mediator of_recipient
          (handle_batch_pickup repository uuid (on of_mediator message))
    at_recipient repository uuid config of_mediator of_recipient
        (handle_batch (on of_recipient batch))
