-- ===== src/Pickup/Batches/Laws.antt =====
-- What a pickup of version 1 delivers.
use test_lib.Common.{
  append-nil, append-step, ℕ, String, true, Option, none, some, List, [], ◌∷◌, ◌++◌, map, length,
  ◌≡◌, ◌≢◌, refl, ap, ◌∙◌,
}
use test_lib.Exec.{ok, run-bind}
use test_lib.Connection.Record.{ConnectionRecord, is_ready, assert_ready}
use test_lib.Storage.DidComm
use test_lib.Pickup.Slices.{ℤ, pos}
use test_lib.Pickup.Slices.Laws.{min}
use test_lib.Pickup.Queue.{EncryptedMessage, MessageRepository}
use test_lib.Pickup.Queue.Laws.{IsQueue}
use test_lib.Pickup.Messages.{BatchPickupMessage, BatchMessage, on}
use test_lib.Pickup.Messages.Laws.{assert_ready_connection-ok}
use test_lib.Pickup.Mediator.{MediatorState}
use test_lib.Pickup.Mediator.Laws.{process_batch_pickup-takes}
use test_lib.Pickup.Recipient.{RecipientState, RecipientConfig, pickup_batch, batch_size_or_default}
use test_lib.Pickup.Rounds.{PickupState}
use test_lib.Pickup.Batches.{emit_each, handle_batch, handle_batch_pickup, batch_pickup}

module _ {CS MS X : Type 0} where
  emit_each-ok :
      (messages : List EncryptedMessage) (s : RecipientState CS MS X)
      → emit_each messages s ≡ (ok tt, record s { received = s.received ++ messages })
  unfolding emit_each
  emit_each-ok [] s = ap (λ l. (ok tt, record s { received = l })) (append-nil s.received)
  emit_each-ok (message ∷ messages) s =
      emit_each-ok messages (record s { received = s.received ++ message ∷ [] })
      ∙ ap (λ l. (ok tt, record s { received = l }))
          (append-step s.received message messages _ refl)

-- the size that is asked for
abbrev pub size_of : Option ℕ → Option ℕ → ℕ
size_of (some size) maximum = size
size_of none maximum = batch_size_or_default maximum

abbrev pub as_integer : Option ℕ → Option ℤ
as_integer (some size) = some (pos size)
as_integer none = none

module _ {CS CQ MS X : Type 0} (config : RecipientConfig CS CQ MS X) where
  assert_ready-ok :
      (connection : ConnectionRecord) (s : RecipientState CS MS X)
      → is_ready connection ≡ true
      → assert_ready connection s ≡ (ok tt, s)
  unfolding assert_ready
  assert_ready-ok connection s ready = rw ready refl

  pickup_batch-ok :
      (connection : ConnectionRecord) (batch_size : Option ℕ) (s : RecipientState CS MS X)
      → is_ready connection ≡ true
      → (message : BatchPickupMessage) × (s' : RecipientState CS MS X) × (pickup_batch config
            connection
            (as_integer batch_size)
            s
          ≡ (ok message, s'))
        × (message.batch_size ≡ pos (size_of batch_size config.maximum_batch_size))
        × (s'.received ≡ s.received)
  unfolding pickup_batch DidComm.new_uuid
  pickup_batch-ok connection none s ready =
      (_, _, run-bind _ _ (assert_ready-ok connection s ready) (run-bind _ _ refl refl), refl, refl)
  pickup_batch-ok connection (some size) s ready =
      (_, _, run-bind _ _ (assert_ready-ok connection s ready) (run-bind _ _ refl refl), refl, refl)

module _ {Q CS CQ MS X Y : Type 0} {repository : MessageRepository Q} (uuid : Y → String × Y)
    (config : RecipientConfig CS CQ MS X) (of_mediator of_recipient : ConnectionRecord)
    {queue_of : Q → String → List EncryptedMessage} (laws : IsQueue repository queue_of) where
  handle_batch_pickup-takes :
      (message : BatchPickupMessage) (size : ℕ) (m : MediatorState Q Y)
      → is_ready of_mediator ≡ true
      → message.batch_size ≡ pos size
      → (batch : BatchMessage) × (m' : MediatorState Q Y) × (handle_batch_pickup repository uuid
            (on of_mediator message)
            m
          ≡ (ok batch, m'))
        × (map (λ p. p.1) batch.messages ++ queue_of m'.queues of_mediator.id
            ≡ queue_of m.queues of_mediator.id)
        × (length (map (λ p. p.1) batch.messages)
            ≡ min size (length (queue_of m.queues of_mediator.id)))
        × ((other : String)
            → of_mediator.id ≢ other
            → queue_of m'.queues other ≡ queue_of m.queues other)
  unfolding handle_batch_pickup
  handle_batch_pickup-takes message size m ready asked =
      let (batch, m', ran, split, count, others) =
        process_batch_pickup-takes uuid laws of_mediator message size m ready asked in
      (
        batch,
        m',
        run-bind _ _ (assert_ready_connection-ok of_mediator message m ready) ran,
        split,
        count,
        others,
      )

  handle_batch-ok :
      (batch : BatchMessage) (s : RecipientState CS MS X)
      → is_ready of_recipient ≡ true
      → handle_batch (on of_recipient batch) s
        ≡ (ok tt, record s { received = s.received ++ map (λ p. p.1) batch.messages })
  unfolding handle_batch
  handle_batch-ok batch s ready =
      run-bind _ _ (assert_ready_connection-ok of_recipient batch s ready) (emit_each-ok _ s)

  -- If the connection is ready on both sides, then a pickup of version 1 succeeds. The recipient
  -- receives the first messages of its queue in their order, as many as it asks for or as the
  -- configuration says, or all if there are fewer; the rest stays in the queue, and so nothing is
  -- lost, doubled or out of order. No other queue changes.
  pub batch_pickup-receives :
      (batch_size : Option ℕ) (s : PickupState Q CS MS X Y)
      → is_ready of_mediator ≡ true
      → is_ready of_recipient ≡ true
      → (s' : PickupState Q CS MS X Y) × (messages : List EncryptedMessage) × (batch_pickup
            repository uuid config of_mediator of_recipient
            (as_integer batch_size)
            s
          ≡ (ok tt, s'))
        × (s'.recipient.received ≡ s.recipient.received ++ messages)
        × (messages ++ queue_of s'.mediator.queues of_mediator.id
            ≡ queue_of s.mediator.queues of_mediator.id)
        × (length messages
            ≡ min
                (size_of batch_size config.maximum_batch_size)
                (length (queue_of s.mediator.queues of_mediator.id)))
        × ((other : String)
            → of_mediator.id ≢ other
            → queue_of s'.mediator.queues other ≡ queue_of s.mediator.queues other)
  unfolding batch_pickup
  batch_pickup-receives batch_size s mediator_ready recipient_ready =
      let (message, r, requested, size, kept) =
        pickup_batch-ok config of_recipient batch_size s.recipient recipient_ready in
      let (batch, m, taken, split, count, others) =
        handle_batch_pickup-takes message _ s.mediator mediator_ready size in
      (
        record {
          mediator = m;
          recipient = record r { received = r.received ++ map (λ p. p.1) batch.messages };
        },
        map (λ p. p.1) batch.messages,
        run-bind _ _ (ap (λ p. (p.0, record s { recipient = p.1 })) requested) (
            run-bind _ _ (ap (λ p. (p.0, record { mediator = p.1; recipient = r })) taken) (
              ap (λ p. (p.0, record { mediator = m; recipient = p.1 }))
                (handle_batch-ok batch r recipient_ready))),
        ap (λ l. l ++ map (λ p. p.1) batch.messages) kept,
        split,
        count,
        others,
      )
