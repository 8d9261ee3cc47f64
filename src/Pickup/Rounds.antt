-- ===== src/Pickup/Rounds.antt =====
-- The rounds of a pickup, version 2, between a recipient and its mediator: each message is handed to
-- the method of its handler in modules/message-pickup/protocol/v2/handlers, and what the method
-- returns is the next message.
pub mod Laws
use test_lib.Common.{ℕ, zero, suc, String, Bool, true, false, Option, none, some}
use test_lib.Exec.{Exec, Result, ok, pure, zoom, ◌>>=◌}
use test_lib.Connection.Record.{ConnectionRecord}
use test_lib.Connection.Inbound.{InboundMessageContext}
use test_lib.Pickup.Queue.{MessageRepository}
use test_lib.Pickup.Messages.{on, StatusMessage, DeliveryRequestMessage}
use test_lib.Pickup.Mediator.{
  MediatorState, DeliveryAnswer, delivery, nothing_to_deliver, process_delivery_request,
  process_messages_received,
}
use test_lib.Pickup.Recipient.{RecipientState, RecipientConfig, process_status, process_delivery}

-- the two agents
pub record PickupState (Q CS MS X Y : Type 0) : Type 0 where
  pub mediator : MediatorState Q Y
  pub recipient : RecipientState CS MS X

-- The repository and the uuids of the mediator, the parts of the recipient, and the connection as
-- the one and as the other has it.
module _ {Q CS CQ MS X Y : Type 0} (repository : MessageRepository Q) (uuid : Y → String × Y)
    (config : RecipientConfig CS CQ MS X) (of_mediator of_recipient : ConnectionRecord) where
  abbrev pub at_mediator :
      {A : Type 0} → Exec (MediatorState Q Y) A → Exec (PickupState Q CS MS X Y) A
  at_mediator = zoom (λ s. s.mediator) (λ m s. record s { mediator = m })

  abbrev pub at_recipient :
      {A : Type 0} → Exec (RecipientState CS MS X) A → Exec (PickupState Q CS MS X Y) A
  at_recipient = zoom (λ s. s.recipient) (λ r s. record s { recipient = r })

  -- the handlers of the delivery and of the acknowledgement
  abbrev pub after_answer : DeliveryAnswer → Exec (PickupState Q CS MS X Y) StatusMessage
  after_answer (nothing_to_deliver status) = pure status
  after_answer (delivery message) = do
    received ← at_recipient (process_delivery config (on of_recipient message))
    at_mediator (process_messages_received repository uuid (on of_mediator received))

  -- the handler of the delivery request, if there is one
  abbrev pub after_request :
      Option DeliveryRequestMessage → Exec (PickupState Q CS MS X Y) (Option StatusMessage)
  after_request none = pure none
  after_request (some request) = do
    answer ← at_mediator (process_delivery_request repository uuid (on of_mediator request))
    status ← after_answer answer
    pure (some status)

  -- from one status to the next, if the recipient asks for a delivery
  unfoldable pub round : StatusMessage → Exec (PickupState Q CS MS X Y) (Option StatusMessage)
  round status = do
    request ← at_recipient (process_status config (on of_recipient status))
    after_request request

  -- The rounds, as long as the recipient asks; `false` if they were cut off after so many rounds.
  unfoldable pub pickup : ℕ → StatusMessage → Exec (PickupState Q CS MS X Y) Bool
  pickup zero status = pure false
  pickup (suc rounds) status = do
    next ← round status
    elim next [ none ↦ pure true | some status' ↦ pickup rounds status' ]
