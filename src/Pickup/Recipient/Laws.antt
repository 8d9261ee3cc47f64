-- ===== src/Pickup/Recipient/Laws.antt =====
-- What the methods of the recipient do.
use test_lib.Common.{
  ℕ, suc, String, Bool, true, false, Option, none, some, List, [], ◌∷◌, ◌++◌, map, ◌≡◌, refl, ap,
  ◌∙◌, append-nil, append-step,
}
use test_lib.Exec.{Result, ok, run-bind}
use test_lib.Connection.Record.{ConnectionRecord, is_ready, completed, response_received}
use test_lib.Pickup.Slices.{pos}
use test_lib.Pickup.Queue.{EncryptedMessage}
use test_lib.Pickup.Messages.{
  DeliveredAttachment, DeliveryRequestMessage, MessageDeliveryMessage, MessagesReceivedMessage,
  StatusMessage,
}
use test_lib.Pickup.Mediator.{as_attachment}
use test_lib.Pickup.Recipient.{
  RecipientState, RecipientConfig, receive_each, receive_attachments, get_data_as_json,
  process_delivery, process_status, limit_of, is_zero, ping_or_request, batch_size_or_default,
}
use test_lib.Storage.DidComm
use test_lib.Connection.Exchange.{did_exchange_state_name}
use test_lib.Connection.Service.{
  ConnectionWorld, TrustPingMessage, create_trust_ping, assert_state, complete_if, not_completed,
}
use test_lib.Pickup.Messages.{on}
use test_lib.Pickup.Messages.Laws.{assert_ready_connection-ok}

module _ {CS CQ MS X : Type 0} (config : RecipientConfig CS CQ MS X) where
  both :
      {ids ids' : List String} {received received' : List EncryptedMessage}
      (s : RecipientState CS MS X)
      → ids ≡ ids'
      → received ≡ received'
      → ◌≡◌ {A = Result (List String) × RecipientState CS MS X}
          (ok ids, record s { received = received })
          (ok ids', record s { received = received' })
  both s e f = rw (e, f) refl

  -- the messages come out in their order, and their ids too
  receive_each-ok :
      (pairs : List (String × EncryptedMessage)) (ids : List String) (s : RecipientState CS MS X)
      → receive_each config (map as_attachment pairs) ids s ≡ (
        ok (ids ++ map (λ p. p.0) pairs),
        record s { received = s.received ++ map (λ p. p.1) pairs },
      )
  unfolding receive_each get_data_as_json
  receive_each-ok [] ids s = both s (append-nil ids) (append-nil s.received)
  receive_each-ok ((id, message) ∷ pairs) ids s = run-bind _ _ refl (
      run-bind _ _ refl (
        receive_each-ok pairs (ids ++ id ∷ []) (record s { received = s.received ++ message ∷ [] })
        ∙ both s (append-step ids id _ _ refl) (append-step s.received message _ _ refl)))

  receive_attachments-ok :
      (attachments : Option (List DeliveredAttachment)) (pairs : List (String × EncryptedMessage))
      (s : RecipientState CS MS X)
      → attachments ≡ some (map as_attachment pairs)
      → receive_attachments config attachments s
        ≡ (ok (map (λ p. p.0) pairs), record s { received = s.received ++ map (λ p. p.1) pairs })
  receive_attachments-ok attachments pairs s same = rw same (receive_each-ok pairs [] s)

  -- the acknowledgement, with the ids of the messages of the delivery
  pub process_delivery-ok :
      (connection : ConnectionRecord) (message : MessageDeliveryMessage)
      (pairs : List (String × EncryptedMessage)) (s : RecipientState CS MS X)
      → is_ready connection ≡ true
      → message.appended_attachments ≡ some (map as_attachment pairs)
      → (received : MessagesReceivedMessage) × (s' : RecipientState CS MS X) × (process_delivery
            config
            (on connection message)
            s
          ≡ (ok received, s'))
        × (received.message_id_list ≡ some (map (λ p. p.0) pairs))
        × (s'.received ≡ s.received ++ map (λ p. p.1) pairs)
  unfolding process_delivery DidComm.new_uuid
  process_delivery-ok connection message pairs s ready same = (
    _,
    _,
    run-bind _ _ (assert_ready_connection-ok connection message s ready)
        (run-bind _ _ (receive_attachments-ok _ pairs s same) (run-bind _ _ refl refl)),
    refl,
    refl,
  )

module _ {CS CQ MS X : Type 0} (config : RecipientConfig CS CQ MS X) where
  counted :
      (connection : ConnectionRecord) (message : StatusMessage) (s : RecipientState CS MS X)
      {zero_count expected : Bool}
      → zero_count ≡ expected
      → ping_or_request config zero_count connection message s
        ≡ ping_or_request config expected connection message s
  counted connection message s e = rw e refl

  requests :
      (connection : ConnectionRecord) (message : StatusMessage) (s : RecipientState CS MS X)
      → (request : DeliveryRequestMessage) × (s' : RecipientState CS MS X) × (ping_or_request config
            false connection message s
          ≡ (ok (some request), s'))
        × (request.limit
            ≡ limit_of message.message_count (batch_size_or_default config.maximum_batch_size))
        × (request.recipient_key ≡ message.recipient_key)
        × (s'.received ≡ s.received)
  unfolding DidComm.new_uuid
  requests connection message s = (_, _, run-bind _ _ refl refl, refl, refl, refl)

  -- a status that counts some messages is answered by a request for as many as the batch size admits
  pub process_status-asks :
      (connection : ConnectionRecord) (message : StatusMessage) (n : ℕ) (s : RecipientState CS MS X)
      → is_ready connection ≡ true
      → message.message_count ≡ pos (suc n)
      → (request : DeliveryRequestMessage) × (s' : RecipientState CS MS X) × (process_status config
            (on connection message)
            s
          ≡ (ok (some request), s'))
        × (request.limit ≡ limit_of (pos (suc n)) (batch_size_or_default config.maximum_batch_size))
        × (request.recipient_key ≡ message.recipient_key)
        × (s'.received ≡ s.received)
  unfolding process_status
  process_status-asks connection message n s ready count =
      let (request, s', ran, limit, key, same) = requests connection message s in
      (
        request,
        s',
        run-bind _ _ (assert_ready_connection-ok connection message s ready)
            (counted connection message s (ap is_zero count) ∙ ran),
        limit ∙ ap (λ c. limit_of c (batch_size_or_default config.maximum_batch_size)) count,
        key,
        same,
      )

  asserted :
      (connection : ConnectionRecord) (w : ConnectionWorld CS MS X)
      → connection.state ≡ completed
      → assert_state (response_received ∷ completed ∷ []) connection w ≡ (ok tt, w)
  unfolding assert_state
  asserted connection w at = rw at refl

  kept_completed :
      (connection : ConnectionRecord) (w : ConnectionWorld CS MS X)
      → connection.state ≡ completed
      → complete_if config.connection_storage config.externals
          (not_completed connection)
          connection
          w
        ≡ (ok connection, w)
  unfolding did_exchange_state_name
  kept_completed connection w at = rw at refl

  pings :
      (connection : ConnectionRecord) (w : ConnectionWorld CS MS X)
      → connection.state ≡ completed
      → (p : ConnectionRecord × TrustPingMessage) × (w' : ConnectionWorld CS MS X)
        × (create_trust_ping config.connection_storage config.externals connection false none w
            ≡ (ok p, w'))
  unfolding DidComm.new_uuid create_trust_ping
  pings connection w at = (
    _,
    _,
    run-bind _ _ (asserted connection w at)
        (run-bind _ _ refl (run-bind _ _ (kept_completed connection _ at) refl)),
  )

  -- a status that counts none ends the pickup, with a ping on a completed connection
  pub process_status-ends :
      (connection : ConnectionRecord) (message : StatusMessage) (s : RecipientState CS MS X)
      → connection.state ≡ completed
      → message.message_count ≡ pos 0
      → (s' : RecipientState CS MS X) × (process_status config (on connection message) s
          ≡ (ok none, s'))
        × (s'.received ≡ s.received)
  unfolding process_status is_ready
  process_status-ends connection message s at count =
      let (p, w', ran) = pings connection s.world at in
      (
        _,
        run-bind _ _ (assert_ready_connection-ok connection message s (rw at refl)) (
            counted connection message s (ap is_zero count)
            ∙ run-bind _ _ (ap (λ q. (q.0, record s { world = q.1 })) ran)
                (run-bind _ _ refl refl)),
        refl,
      )
