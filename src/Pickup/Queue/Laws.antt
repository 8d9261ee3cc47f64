-- ===== src/Pickup/Queue/Laws.antt =====
-- What a repository of messages promises, and that the one in memory keeps it.
use test_lib.Common.{
  zero, suc, ◌-◌, ℕ, String, true, false, Option, none, some, List, [], ◌∷◌, ◌++◌, length, ◌≡◌, ◌≢◌,
  refl, sym, ap, ◌∙◌, eq_iff, arith, inl, inr, Option-cases,
}
use test_lib.Pickup.Slices.{ℤ, pos, negsuc, slice, removed, remaining, take, drop}
use test_lib.Pickup.Queue.{
  EncryptedMessage, MessageRepository, Queues, messages_of, set_messages, messages_to_take,
  get_available_message_count, take_from_queue, add, in_memory,
}

-- Each connection has one queue, oldest first, and no method touches another one. The messages are
-- added at its end and taken off its front, or only looked at there.
pub record IsQueue {Q : Type 0} (repository : MessageRepository Q)
    (queue_of : Q → String → List EncryptedMessage) : Type 0 where
  pub counts :
      (q : Q) (id : String) → repository.get_available_message_count q id ≡ length (queue_of q id)
  pub keeps :
      (q : Q) (id : String) (limit : Option ℤ)
      → repository.take_from_queue q id limit true
        ≡ (slice (messages_to_take limit (queue_of q id)) (queue_of q id), q)
  pub takes :
      (q : Q) (id : String) (limit : Option ℤ)
      → (repository.take_from_queue q id limit false).0
        ≡ removed (messages_to_take limit (queue_of q id)) (queue_of q id)
  pub leaves :
      (q : Q) (id : String) (limit : Option ℤ)
      → queue_of (repository.take_from_queue q id limit false).1 id
        ≡ remaining (messages_to_take limit (queue_of q id)) (queue_of q id)
  pub takes_only :
      (q : Q) (id other : String) (limit : Option ℤ)
      → id ≢ other
      → queue_of (repository.take_from_queue q id limit false).1 other ≡ queue_of q other
  pub adds :
      (q : Q) (id : String) (payload : EncryptedMessage)
      → queue_of (repository.add q id payload) id ≡ queue_of q id ++ payload ∷ []
  pub adds_only :
      (q : Q) (id other : String) (payload : EncryptedMessage)
      → id ≢ other
      → queue_of (repository.add q id payload) other ≡ queue_of q other

-- the queue of a connection, empty if there is none yet
abbrev pub or_empty : Option (List EncryptedMessage) → List EncryptedMessage
or_empty none = []
or_empty (some messages) = messages

abbrev pub queue_of : Queues → String → List EncryptedMessage
queue_of queues id = or_empty (messages_of queues id)

messages_of-set_messages :
    (queues : Queues) (id : String) (messages : List EncryptedMessage)
    → messages_of (set_messages queues id messages) id ≡ some messages
unfolding messages_of set_messages
messages_of-set_messages [] id messages = ground (arith, eq_iff id id)
messages_of-set_messages ((key, old) ∷ queues) id messages =
    ground (arith, eq_iff key id, messages_of-set_messages queues id messages)

messages_of-set_messages_ne :
    (queues : Queues) (id other : String) (messages : List EncryptedMessage)
    → id ≢ other
    → messages_of (set_messages queues id messages) other ≡ messages_of queues other
unfolding messages_of set_messages
messages_of-set_messages_ne [] id other messages ne = ground (arith, eq_iff id other)
messages_of-set_messages_ne ((key, old) ∷ queues) id other messages ne = ground (
  arith,
  eq_iff key id,
  eq_iff key other,
  eq_iff id other,
  messages_of-set_messages_ne queues id other messages ne,
)

take-nil : (n : ℕ) → take {A = EncryptedMessage} n [] ≡ []
unfolding take
take-nil zero = refl
take-nil (suc n) = refl

drop-nil : (n : ℕ) → drop {A = EncryptedMessage} n [] ≡ []
unfolding drop
drop-nil zero = refl
drop-nil (suc n) = refl

slice-nil : (limit : ℤ) → slice {A = EncryptedMessage} limit [] ≡ []
unfolding slice
slice-nil (pos n) = take-nil n
slice-nil (negsuc n) = take-nil (0 - suc n)

removed-nil : (limit : ℤ) → removed {A = EncryptedMessage} limit [] ≡ []
unfolding removed
removed-nil (pos n) = take-nil n
removed-nil (negsuc n) = refl

remaining-nil : (limit : ℤ) → remaining {A = EncryptedMessage} limit [] ≡ []
unfolding remaining
remaining-nil (pos n) = drop-nil n
remaining-nil (negsuc n) = refl

-- The repository in memory keeps a queue for each connection, as the interface promises: the count,
-- what is taken or looked at, what is left, and what is added are those of one list, oldest first,
-- and the queues of the other connections stay as they are.
pub in_memory-IsQueue : IsQueue in_memory queue_of
unfolding get_available_message_count take_from_queue add
in_memory-IsQueue = record {
  counts = λ q id. elim (Option-cases (messages_of q id)) [
    | inl e ↦ rw (get_available_message_count, e) refl
    | inr (messages, e) ↦ rw (get_available_message_count, e) refl
  ];
  keeps = λ q id limit. elim (Option-cases (messages_of q id)) [
    | inl e ↦
        rw (take_from_queue, e) (ap (λ ms. (ms, q)) (sym (slice-nil (messages_to_take limit []))))
    | inr (messages, e) ↦ rw (take_from_queue, e) refl
  ];
  takes = λ q id limit. elim (Option-cases (messages_of q id)) [
    | inl e ↦ rw (take_from_queue, e) (sym (removed-nil (messages_to_take limit [])))
    | inr (messages, e) ↦ rw (take_from_queue, e) refl
  ];
  leaves = λ q id limit. elim (Option-cases (messages_of q id)) [
    | inl e ↦
        rw (take_from_queue, e) (ap or_empty e ∙ sym (remaining-nil (messages_to_take limit [])))
    | inr (messages, e) ↦ rw (take_from_queue, e) (ap or_empty (messages_of-set_messages q id _))
  ];
  takes_only = λ q id other limit ne. elim (Option-cases (messages_of q id)) [
    | inl e ↦ rw (take_from_queue, e) refl
    | inr (messages, e) ↦
        rw (take_from_queue, e) (ap or_empty (messages_of-set_messages_ne q id other _ ne))
  ];
  adds = λ q id payload. elim (Option-cases (messages_of q id)) [
    | inl e ↦ rw (add, e) (ap or_empty (messages_of-set_messages q id _))
    | inr (messages, e) ↦ rw (add, e) (ap or_empty (messages_of-set_messages q id _))
  ];
  adds_only = λ q id other payload ne. elim (Option-cases (messages_of q id)) [
    | inl e ↦ rw (add, e) (ap or_empty (messages_of-set_messages_ne q id other _ ne))
    | inr (messages, e) ↦ rw (add, e) (ap or_empty (messages_of-set_messages_ne q id other _ ne))
  ];
}
