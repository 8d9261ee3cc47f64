-- ===== src/Pickup/Rounds/Laws.antt =====
-- What the rounds of a pickup deliver.
use mathlib.Core.List.{append_assoc}
use test_lib.Common.{
  append-nil, ◌⊎◌, ℕ, zero, suc, ◌-◌, ◌≤◌, ◌<◌, String, true, none, some, List, [], ◌∷◌, ◌++◌, map,
  length, ◌≡◌, ◌≢◌, refl, sym, ap, ◌∙◌, arith, ltb, Bool-cases, inl, inr,
}
use test_lib.Exec.{ok, run-bind}
use test_lib.Connection.Record.{ConnectionRecord, is_ready, completed}
use test_lib.Pickup.Slices.{pos, slice, take, drop}
use test_lib.Pickup.Slices.Laws.{take-drop, length-drop, drop-length-take}
use test_lib.Pickup.Queue.{EncryptedMessage, MessageRepository}
use test_lib.Pickup.Queue.Laws.{IsQueue}
use test_lib.Pickup.Messages.{StatusMessage}
use test_lib.Pickup.Recipient.{RecipientConfig, limit_of, batch_size_or_default}
use test_lib.Pickup.Rounds.{PickupState, round, pickup}
use test_lib.Pickup.Mediator.Laws.{process_delivery_request-ok, process_messages_received-ok}
use test_lib.Pickup.Recipient.Laws.{process_delivery-ok, process_status-asks, process_status-ends}

-- A limit that is neither zero nor above the batch size.
limit_of-suc :
    (n maximum : ℕ)
    → 0 < maximum
    → (k : ℕ) × (limit_of (pos (suc n)) maximum ≡ pos (suc k)) × (k ≤ n)
unfolding limit_of
limit_of-suc n zero h = absurd (omega arith)
limit_of-suc n (suc m) h = elim (Bool-cases (ltb (suc n) (suc m))) [
  | inl below ↦ (n, rw below refl, omega arith)
  | inr above ↦ (m, rw above refl, ground (arith, above))
]

module _ {A B : Type 0} where
  length-map : (f : A → B) (xs : List A) → length (map f xs) ≡ length xs
  length-map f [] = refl
  length-map f (x ∷ xs) = ap suc (length-map f xs)

zero_or_suc : (n : ℕ) → (n ≡ 0) ⊎ ((m : ℕ) × (n ≡ suc m))
zero_or_suc zero = inl refl
zero_or_suc (suc m) = inr (m, refl)

completed-is_ready :
    (connection : ConnectionRecord) → connection.state ≡ completed → is_ready connection ≡ true
unfolding is_ready
completed-is_ready connection at = rw at refl

module _ {A : Type 0} where
  is_nil : (xs : List A) → length xs ≡ 0 → xs ≡ []
  is_nil [] size = refl
  is_nil (x ∷ xs) size = absurd (omega arith)

  take-suc_ne : (k n : ℕ) (xs : List A) → length xs ≡ suc n → take (suc k) xs ≢ []
  unfolding take
  take-suc_ne k n [] size e = absurd (omega arith)
  take-suc_ne k n (x ∷ xs) size e = absurd (ground (arith, e))

module _ {Q CS CQ MS X Y : Type 0} {repository : MessageRepository Q} (uuid : Y → String × Y)
    (config : RecipientConfig CS CQ MS X) (of_mediator of_recipient : ConnectionRecord)
    {queue_of : Q → String → List EncryptedMessage} (laws : IsQueue repository queue_of) where
  -- the queue of the recipient at the mediator
  abbrev pub waiting : PickupState Q CS MS X Y → List EncryptedMessage
  waiting s = queue_of s.mediator.queues of_mediator.id

  -- A round that finds messages delivers the first ones, up to the batch size, and drops them.
  pub record Progress (status : StatusMessage) (s : PickupState Q CS MS X Y) : Type 0 where
    pub next : StatusMessage
    pub after : PickupState Q CS MS X Y
    pub taken : ℕ
    pub some_taken : 0 < taken
    pub ran :
        round repository uuid config of_mediator of_recipient status s ≡ (ok (some next), after)
    pub received : after.recipient.received ≡ s.recipient.received ++ take taken (waiting s)
    pub left : waiting after ≡ drop taken (waiting s)
    pub count : next.message_count ≡ pos (length (waiting after))
    pub no_key : next.recipient_key ≡ none
    pub others :
        (other : String)
        → of_mediator.id ≢ other
        → queue_of after.mediator.queues other ≡ queue_of s.mediator.queues other

  round-Progress :
      (status : StatusMessage) (s : PickupState Q CS MS X Y) (n : ℕ)
      → is_ready of_mediator ≡ true
      → is_ready of_recipient ≡ true
      → 0 < batch_size_or_default config.maximum_batch_size
      → length (waiting s) ≡ suc n
      → status.message_count ≡ pos (suc n)
      → status.recipient_key ≡ none
      → Progress status s
  unfolding round slice
  round-Progress status s n ready_m ready_r some_size size count no_key =
      let (k, limited, below) = limit_of-suc n _ some_size in
      let (request, r₁, asked, limit, key, same₁) =
        process_status-asks config of_recipient status n s.recipient ready_r count in
      let sliced : slice request.limit (waiting s) ≡ take (suc k) (waiting s) =
        ap (λ l. slice l (waiting s)) (limit ∙ limited) in
      let d =
        process_delivery_request-ok uuid laws of_mediator request s.mediator ready_m (key ∙ no_key)
          (λ e. take-suc_ne k n _ size (sym sliced ∙ e)) in
      let (received, r₂, processed, ids, same₂) =
        process_delivery-ok config of_recipient d.message d.pairs r₁ ready_r d.attachments in
      let a =
        process_messages_received-ok uuid laws of_mediator received (map (λ p. p.0) d.pairs) d.after
          ready_m ids in
      let delivered : map (λ p. p.1) d.pairs ≡ take (suc k) (waiting s) = d.messages ∙ sliced in
      let counted : length (map (λ p. p.0) d.pairs) ≡ length (take (suc k) (waiting s)) =
        length-map (λ p. p.0) d.pairs ∙ sym (length-map (λ p. p.1) d.pairs) ∙ ap length delivered in
      record {
        next = a.answer;
        after = record { mediator = a.after; recipient = r₂ };
        taken = suc k;
        some_taken = omega arith;
        ran = run-bind _ _ (ap (λ q. (q.0, record s { recipient = q.1 })) asked) (
            run-bind _ _ (ap (λ q. (q.0, record { mediator = q.1; recipient = r₁ })) d.ran) (
              run-bind _ _
                (run-bind _ _
                  (ap (λ q. (q.0, record { mediator = d.after; recipient = q.1 })) processed)
                  (ap (λ q. (q.0, record { mediator = q.1; recipient = r₂ })) a.ran))
                refl));
        received = cc;
        left =
            a.left
            ∙ ap (λ q. drop (length (map (λ p. p.0) d.pairs)) (queue_of q of_mediator.id)) d.kept
            ∙ ap (λ l. drop l (waiting s)) counted
            ∙ drop-length-take (suc k) (waiting s);
        count = a.count;
        no_key = a.no_key;
        others = λ other ne. a.others other ne ∙ ap (λ q. queue_of q other) d.kept;
      }

  -- the whole queue has arrived, in its order, and no other queue has changed
  pub record PickedUp (s s' : PickupState Q CS MS X Y) : Type 0 where
    pub received : s'.recipient.received ≡ s.recipient.received ++ waiting s
    pub emptied : waiting s' ≡ []
    pub others :
        (other : String)
        → of_mediator.id ≢ other
        → queue_of s'.mediator.queues other ≡ queue_of s.mediator.queues other

  -- the pickup comes to its end
  abbrev Ends : ℕ → StatusMessage → PickupState Q CS MS X Y → Type 0
  Ends rounds status s =
      (s' : PickupState Q CS MS X Y) × (pickup repository uuid config of_mediator of_recipient
          rounds status s
        ≡ (ok true, s'))
      × PickedUp s s'

  last_round-PickedUp :
      (rounds : ℕ) (status : StatusMessage) (s : PickupState Q CS MS X Y)
      → of_recipient.state ≡ completed
      → length (waiting s) ≡ 0
      → status.message_count ≡ pos 0
      → Ends (suc rounds) status s
  unfolding pickup round
  last_round-PickedUp rounds status s at size count =
      let (r, ran, same) = process_status-ends config of_recipient status s.recipient at count in
      let empty : waiting s ≡ [] = is_nil (waiting s) size in
      (
        record s { recipient = r },
        run-bind _ _ (run-bind _ _ (ap (λ q. (q.0, record s { recipient = q.1 })) ran) refl) refl,
        record {
          received =
              same
              ∙ append-nil s.recipient.received
              ∙ ap (λ ms. s.recipient.received ++ ms) (sym empty);
          emptied = empty;
          others = λ other ne. refl;
        },
      )

  next_round-PickedUp :
      (rounds : ℕ) (status : StatusMessage) (s : PickupState Q CS MS X Y) (p : Progress status s)
      → Ends rounds p.next p.after
      → Ends (suc rounds) status s
  unfolding pickup
  next_round-PickedUp rounds status s p (s', ran, picked) = (
    s',
    run-bind _ _ p.ran ran,
    record {
      received =
          picked.received
          ∙ ap (λ ms. ms ++ waiting p.after) p.received
          ∙ append_assoc s.recipient.received (take p.taken (waiting s)) (waiting p.after)
          ∙ ap (λ ms. s.recipient.received ++ (take p.taken (waiting s) ++ ms)) p.left
          ∙ ap (λ ms. s.recipient.received ++ ms) (take-drop p.taken (waiting s));
      emptied = picked.emptied;
      others = λ other ne. picked.others other ne ∙ p.others other ne;
    },
  )

  -- each round takes some messages, so that fewer rounds are enough for the rest
  fewer :
      {status : StatusMessage} {s : PickupState Q CS MS X Y} (p : Progress status s) (n rounds : ℕ)
      → length (waiting s) ≡ suc n
      → length (waiting s) < suc rounds
      → length (waiting p.after) < rounds
  fewer {s = s} p n rounds size enough =
      let e : length (waiting p.after) ≡ length (waiting s) - p.taken =
        ap length p.left ∙ length-drop p.taken (waiting s) in
      let some_taken = p.some_taken in omega arith

  -- A pickup with more rounds than there are messages in the queue comes to its end. The recipient
  -- has then received all messages of its queue, each once and in their order, its queue is empty,
  -- and the other queues are as before. The mediator's connection is ready, the recipient's is
  -- completed, the batch size is not zero, and the first status counts the queue and names no key.
  pub pickup-PickedUp :
      (rounds : ℕ) (status : StatusMessage) (s : PickupState Q CS MS X Y)
      → is_ready of_mediator ≡ true
      → of_recipient.state ≡ completed
      → 0 < batch_size_or_default config.maximum_batch_size
      → status.message_count ≡ pos (length (waiting s))
      → status.recipient_key ≡ none
      → length (waiting s) < rounds
      → (s' : PickupState Q CS MS X Y) × (pickup repository uuid config of_mediator of_recipient
            rounds status s
          ≡ (ok true, s'))
        × PickedUp s s'
  pickup-PickedUp zero status s ready at some_size count no_key enough = absurd (omega arith)
  pickup-PickedUp (suc rounds) status s ready at some_size count no_key enough =
      elim (zero_or_suc (length (waiting s))) [
        | inl size ↦ last_round-PickedUp rounds status s at size (count ∙ ap pos size)
        | inr (n, size) ↦
            let p =
              round-Progress status s n ready (completed-is_ready of_recipient at) some_size size
                (count ∙ ap pos size) no_key in
            next_round-PickedUp rounds status s p (
              pickup-PickedUp rounds p.next p.after ready at some_size p.count p.no_key
                (fewer p n rounds size enough))
      ]
