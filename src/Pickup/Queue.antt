-- ===== src/Pickup/Queue.antt =====
-- storage/MessageRepository.ts and its implementation, storage/InMemoryMessageRepository.ts: a queue
-- of packed messages for each connection.
pub mod Laws
use test_lib.Common.{
  ℕ, String, Bool, true, false, Option, none, some, List, [], ◌∷◌, ◌++◌, ◌==◌, length,
  if◌then◌else◌,
}
use test_lib.Pickup.Slices.{ℤ, pos, slice, removed, remaining}

-- a packed message, which the queues hand on
abbrev pub EncryptedMessage : Type 0
EncryptedMessage = String

-- The interface, over the states of a repository. The second argument of `take_from_queue` is the
-- limit, the third tells whether the messages are kept.
pub record MessageRepository (Q : Type 0) : Type 0 where
  pub get_available_message_count : Q → String → ℕ
  pub take_from_queue : Q → String → Option ℤ → Bool → List EncryptedMessage × Q
  pub add : Q → String → EncryptedMessage → Q

-- `this.messages`
abbrev pub Queues : Type 0
Queues = List (String × List EncryptedMessage)

-- `this.messages[connectionId]`
unfoldable pub messages_of : Queues → String → Option (List EncryptedMessage)
messages_of [] id = none
messages_of ((key, messages) ∷ queues) id =
    let rest = messages_of queues id in if key == id then some messages else rest

-- `this.messages[connectionId] = messages`
unfoldable pub set_messages : Queues → String → List EncryptedMessage → Queues
set_messages [] id messages = (id, messages) ∷ []
set_messages ((key, old) ∷ queues) id messages =
    let rest = set_messages queues id messages in
    if key == id then (key, messages) ∷ queues else (key, old) ∷ rest

unfoldable pub get_available_message_count : Queues → String → ℕ
unfolding messages_of
get_available_message_count queues id = elim (messages_of queues id) [
  | none ↦ 0
  | some messages ↦ length messages
]

-- `limit ?? this.messages[connectionId].length`
abbrev pub messages_to_take : Option ℤ → List EncryptedMessage → ℤ
messages_to_take none messages = pos (length messages)
messages_to_take (some limit) messages = limit

unfoldable pub take_from_queue : Queues → String → Option ℤ → Bool → List EncryptedMessage × Queues
unfolding messages_of set_messages slice removed remaining
take_from_queue queues id limit keep_messages = elim (messages_of queues id) [
  | none ↦ ([], queues)
  | some messages ↦
      if keep_messages then (slice (messages_to_take limit messages) messages, queues) else (
        removed (messages_to_take limit messages) messages,
        set_messages queues id (remaining (messages_to_take limit messages) messages),
      )
]

unfoldable pub add : Queues → String → EncryptedMessage → Queues
unfolding messages_of set_messages
add queues id payload = elim (messages_of queues id) [
  | none ↦ set_messages queues id (payload ∷ [])
  | some messages ↦ set_messages queues id (messages ++ payload ∷ [])
]

abbrev pub in_memory : MessageRepository Queues
in_memory = record {
  get_available_message_count = get_available_message_count;
  take_from_queue = take_from_queue;
  add = add;
}
