-- ===== src/Pickup/Mediator/Laws.antt =====
-- What the methods of the mediator do.
use test_lib.Common.{
  ℕ, String, true, false, Option, none, some, List, [], ◌∷◌, ◌++◌, map, length, ◌≡◌, ◌≢◌, refl, sym,
  ap, ◌∙◌, not, is_truthy,
}
use test_lib.Exec.{ok, assert, run-bind}
use test_lib.Connection.Record.{ConnectionRecord, is_ready}
use test_lib.Pickup.Slices.{ℤ, pos, slice, remaining, drop}
use test_lib.Pickup.Queue.{EncryptedMessage, MessageRepository}
use test_lib.Pickup.Queue.Laws.{IsQueue}
use test_lib.Pickup.Messages.{
  DeliveryRequestMessage, MessageDeliveryMessage, MessagesReceivedMessage, StatusMessage,
}
use test_lib.Pickup.Mediator.{
  MediatorState, as_attachment, with_ids, delivery, process_delivery_request,
  process_messages_received, status, new_uuid, delivery_or_status, take_messages,
}
use test_lib.Message.{thread_or_id}
use test_lib.Pickup.Messages.{on}
use test_lib.Pickup.Slices.{take, removed}
use test_lib.Pickup.Slices.Laws.{take-drop, length-take, min}
use test_lib.Pickup.Messages.{BatchPickupMessage, BatchMessage}
use test_lib.Pickup.Mediator.{process_batch_pickup}
use test_lib.Pickup.Messages.Laws.{assert_ready_connection-ok}

module _ {Q Y : Type 0} (repository : MessageRepository Q) (uuid : Y → String × Y) where
  -- the messages, in their order, each with an id
  with_ids-ok :
      (messages : List EncryptedMessage) (s : MediatorState Q Y)
      → (pairs : List (String × EncryptedMessage)) × (rest : Y) × (with_ids repository uuid messages
            s
          ≡ (ok pairs, record s { rest = rest }))
        × (map (λ p. p.1) pairs ≡ messages)
  unfolding with_ids new_uuid
  with_ids-ok [] s = ([], s.rest, refl, refl)
  with_ids-ok (message ∷ messages) s =
      let (id, rest) = uuid s.rest in
      let (pairs, rest', e, same) = with_ids-ok messages (record s { rest = rest }) in
      (
        (id, message) ∷ pairs,
        rest',
        run-bind _ _ refl (run-bind _ _ e refl),
        ap (λ ms. message ∷ ms) same,
      )

module _ {Q Y : Type 0} {repository : MessageRepository Q} (uuid : Y → String × Y)
    {queue_of : Q → String → List EncryptedMessage} (laws : IsQueue repository queue_of) where
  -- what `process_messages_received` leaves, and tells the recipient of
  pub record Acknowledged (connection : ConnectionRecord) (message : MessagesReceivedMessage)
      (s : MediatorState Q Y) (taken : ℕ) : Type 0 where
    pub answer : StatusMessage
    pub after : MediatorState Q Y
    pub ran :
        process_messages_received repository uuid (on connection message) s ≡ (ok answer, after)
    pub no_key : answer.recipient_key ≡ none
    pub count : answer.message_count ≡ pos (length (queue_of after.queues connection.id))
    pub left : queue_of after.queues connection.id ≡ drop taken (queue_of s.queues connection.id)
    pub others :
        (other : String)
        → connection.id ≢ other
        → queue_of after.queues other ≡ queue_of s.queues other

  pub process_messages_received-ok :
      (connection : ConnectionRecord) (message : MessagesReceivedMessage) (ids : List String)
      (s : MediatorState Q Y)
      → is_ready connection ≡ true
      → message.message_id_list ≡ some ids
      → Acknowledged connection message s (length ids)
  unfolding process_messages_received status new_uuid remaining
  process_messages_received-ok connection message ids s ready same = record {
    answer = _;
    after = _;
    ran =
        run-bind _ _ (assert_ready_connection-ok connection message s ready)
          (run-bind _ _ refl (run-bind _ _ refl (run-bind _ _ refl refl)));
    no_key = refl;
    count = ap pos (laws.counts _ connection.id);
    left = rw same (laws.leaves s.queues connection.id (some (pos (length ids))));
    others = λ other ne. laws.takes_only s.queues connection.id other _ ne;
  }

  -- a delivery of what the limit admits, which stays in the queue
  pub record Delivered (connection : ConnectionRecord) (request : DeliveryRequestMessage)
      (s : MediatorState Q Y) : Type 0 where
    pub message : MessageDeliveryMessage
    pub pairs : List (String × EncryptedMessage)
    pub after : MediatorState Q Y
    pub ran :
        process_delivery_request repository uuid (on connection request) s
        ≡ (ok (delivery message), after)
    pub attachments : message.appended_attachments ≡ some (map as_attachment pairs)
    pub messages : map (λ p. p.1) pairs ≡ slice request.limit (queue_of s.queues connection.id)
    pub kept : after.queues ≡ s.queues

  -- a delivery is made of some messages
  delivery-made :
      (thread : String) (pairs : List (String × EncryptedMessage)) (s : MediatorState Q Y)
      → map (λ p. p.1) pairs ≢ []
      → (message : MessageDeliveryMessage) × (s' : MediatorState Q Y) × (delivery_or_status
            repository uuid thread pairs s
          ≡ (ok (delivery message), s'))
        × (message.appended_attachments ≡ some (map as_attachment pairs))
        × (s'.queues ≡ s.queues)
  unfolding new_uuid
  delivery-made thread [] s some_message = absurd (some_message refl)
  delivery-made thread (p ∷ pairs) s some_message = (_, _, run-bind _ _ refl refl, refl, refl)

  keeps-ok :
      (connection : ConnectionRecord) (limit : ℤ) (s : MediatorState Q Y)
      → take_messages repository uuid connection.id (some limit) true s
        ≡ (ok (slice limit (queue_of s.queues connection.id)), s)
  keeps-ok connection limit s =
      ap (λ p. (ok p.0, record s { queues = p.1 })) (laws.keeps s.queues connection.id (some limit))

  pub process_delivery_request-ok :
      (connection : ConnectionRecord) (request : DeliveryRequestMessage) (s : MediatorState Q Y)
      → is_ready connection ≡ true
      → request.recipient_key ≡ none
      → slice request.limit (queue_of s.queues connection.id) ≢ []
      → Delivered connection request s
  unfolding process_delivery_request
  process_delivery_request-ok connection request s ready no_key some_message =
      let (pairs, rest, numbered, same) =
        with_ids-ok repository uuid (slice request.limit (queue_of s.queues connection.id)) s in
      let (message, after, made, attachments, kept) =
        delivery-made (thread_or_id request.thread request.id) pairs (record s { rest = rest })
          (λ e. some_message (sym same ∙ e)) in
      record {
        message = message;
        pairs = pairs;
        after = after;
        ran = run-bind _ _ (assert_ready_connection-ok connection request s ready) (
            run-bind _ _ (allowed _ no_key)
              (run-bind _ _ (keeps-ok connection request.limit s) (run-bind _ _ numbered made)));
        attachments = attachments;
        messages = same;
        kept = kept;
      }
    where
      allowed :
          {key : Option String} (message : String)
          → key ≡ none
          → assert (not (is_truthy key)) message s ≡ (ok tt, s)
      allowed message e = rw e refl

  -- Version 1: the batch has the first messages of the queue, up to the batch size and never more,
  -- each with an id; they leave the queue, and no other queue changes.
  pub process_batch_pickup-takes :
      (connection : ConnectionRecord) (message : BatchPickupMessage) (size : ℕ)
      (s : MediatorState Q Y)
      → is_ready connection ≡ true
      → message.batch_size ≡ pos size
      → (batch : BatchMessage) × (s' : MediatorState Q Y) × (process_batch_pickup repository uuid
            (on connection message)
            s
          ≡ (ok batch, s'))
        × (map (λ p. p.1) batch.messages ++ queue_of s'.queues connection.id
            ≡ queue_of s.queues connection.id)
        × (length (map (λ p. p.1) batch.messages)
            ≡ min size (length (queue_of s.queues connection.id)))
        × ((other : String)
            → connection.id ≢ other
            → queue_of s'.queues other ≡ queue_of s.queues other)
  unfolding process_batch_pickup new_uuid removed remaining
  process_batch_pickup-takes connection message size s ready asked =
      let taken =
        repository.take_from_queue s.queues connection.id (some message.batch_size) false in
      let queue = queue_of s.queues connection.id in
      let (pairs, rest, numbered, same) =
        with_ids-ok repository uuid taken.0 (record s { queues = taken.1 }) in
      let first : taken.0 ≡ take size queue =
        laws.takes s.queues connection.id (some message.batch_size)
        ∙ ap (λ l. removed l queue) asked in
      let rest_left : queue_of taken.1 connection.id ≡ drop size queue =
        laws.leaves s.queues connection.id (some message.batch_size)
        ∙ ap (λ l. remaining l queue) asked in
      (
        _,
        _,
        run-bind _ _ (assert_ready_connection-ok connection message s ready)
            (run-bind _ _ refl (run-bind _ _ numbered (run-bind _ _ refl refl))),
        ap (λ ms. ms ++ queue_of taken.1 connection.id) (same ∙ first)
            ∙ ap (λ ms. take size queue ++ ms) rest_left
            ∙ take-drop size queue,
        ap length (same ∙ first) ∙ length-take size queue,
        λ other ne. laws.takes_only s.queues connection.id other _ ne,
      )
