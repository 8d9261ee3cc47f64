-- ===== src/Tests/Pickup.antt =====
-- The pickup of three messages, two at a time.
use test_lib.Common.{
  ℕ, suc, String, true, none, some, List, [], ◌∷◌, ◌++◌, map, length, ◌≡◌, ◌≢◌, refl, arith,
}
use test_lib.Exec.{ok}
use test_lib.Connection.Record.{ConnectionRecord, is_ready}
use test_lib.Storage.DidComm.{DidCommMessageRecord}
use test_lib.Pickup.Slices.{pos}
use test_lib.Pickup.Slices.Laws.{min}
use test_lib.Pickup.Queue.{messages_of, Queues, EncryptedMessage, in_memory}
use test_lib.Pickup.Queue.Laws.{queue_of, in_memory-IsQueue}
use test_lib.Pickup.Messages.{BatchPickupMessage, BatchMessage, StatusMessage, on}
use test_lib.Pickup.Mediator.{MediatorState, process_batch_pickup}
use test_lib.Pickup.Mediator.Laws.{process_batch_pickup-takes}
use test_lib.Pickup.Recipient.{RecipientConfig}
use test_lib.Pickup.Batches.{batch_pickup}
use test_lib.Pickup.Batches.Laws.{as_integer, size_of, batch_pickup-receives}
use test_lib.Pickup.Rounds.{PickupState, pickup}
use test_lib.Pickup.Rounds.Laws.{PickedUp, pickup-PickedUp}
use test_lib.Tests.Memory.{memory}
use test_lib.Tests.Agent.{connection, externals, uuid_text}

abbrev uuid : ℕ → String × ℕ
uuid n = (uuid_text n, suc n)

abbrev config : RecipientConfig (List ConnectionRecord) (Unit {0}) (List DidCommMessageRecord) ℕ
config = record {
  connection_storage = memory (λ c. c.id) (λ _ _. true);
  externals = externals;
  maximum_batch_size = some 2;
  from_base64 = λ text. ok text;
}

abbrev mediator : MediatorState Queues ℕ
mediator = record { queues = ("c", "x" ∷ "y" ∷ "z" ∷ []) ∷ ("d", "w" ∷ []) ∷ []; rest = 0 }

abbrev State : Type 0
State = PickupState Queues (List ConnectionRecord) (List DidCommMessageRecord) ℕ ℕ

abbrev start : State
start = record {
  mediator = mediator;
  recipient = record {
    world = record {
      records = record { store = connection ∷ []; emitted = [] };
      stores = record { messages = record { store = []; emitted = [] }; rest = 0 };
      events = [];
    };
    received = [];
    pings = [];
  };
}

abbrev status : StatusMessage
status = record { id = "s"; thread = none; recipient_key = none; message_count = pos 3 }

ready : is_ready connection ≡ true
unfolding is_ready
ready = refl

queued : queue_of mediator.queues "c" ≡ "x" ∷ "y" ∷ "z" ∷ []
unfolding messages_of
queued = refl

pickup-PickedUp_example :
    (s' : State) × (pickup in_memory uuid config connection connection 4 status start
      ≡ (ok true, s'))
    × PickedUp uuid config connection connection in_memory-IsQueue start s'
pickup-PickedUp_example =
    pickup-PickedUp uuid config connection connection in_memory-IsQueue 4 status start ready refl
      (omega arith) (rw queued refl) refl (rw queued (omega arith))

abbrev batch : BatchPickupMessage
batch = record { id = "b"; batch_size = pos 2 }

process_batch_pickup-takes_example :
    (answer : BatchMessage) × (s' : MediatorState Queues ℕ) × (process_batch_pickup in_memory uuid
        (on connection batch)
        mediator
      ≡ (ok answer, s'))
    × (map (λ p. p.1) answer.messages ++ queue_of s'.queues "c" ≡ queue_of mediator.queues "c")
    × (length (map (λ p. p.1) answer.messages) ≡ min 2 (length (queue_of mediator.queues "c")))
    × ((other : String) → "c" ≢ other → queue_of s'.queues other ≡ queue_of mediator.queues other)
process_batch_pickup-takes_example =
    process_batch_pickup-takes uuid in_memory-IsQueue connection batch 2 mediator ready refl

batch_pickup-receives_example :
    (s' : State) × (messages : List EncryptedMessage) × (batch_pickup in_memory uuid config
        connection connection
        (as_integer none)
        start
      ≡ (ok tt, s'))
    × (s'.recipient.received ≡ start.recipient.received ++ messages)
    × (messages ++ queue_of s'.mediator.queues "c" ≡ queue_of mediator.queues "c")
    × (length messages ≡ min (size_of none (some 2)) (length (queue_of mediator.queues "c")))
    × ((other : String)
        → "c" ≢ other
        → queue_of s'.mediator.queues other ≡ queue_of mediator.queues other)
batch_pickup-receives_example =
    batch_pickup-receives uuid config connection connection in_memory-IsQueue none start ready ready
