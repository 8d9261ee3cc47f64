-- ===== src/Exchange.antt =====
-- What the exchange protocols share: issue-credential (BaseCredentialProtocol.ts) and present-proof
-- (BaseProofProtocol.ts) keep a record per exchange, store the messages beside it, and tell of each
-- change of its state by an event.
pub mod Effect
pub mod Events
pub mod Quiet
pub mod Selection
pub mod Attachments
pub mod AutoAccept
use test_lib.Common.{String, Option, none, some, List, [], ◌∷◌, ◌++◌, ◌≡◌}
use test_lib.Exec.{ok, Exec, pure, zoom, ◌>>=◌, ◌>>◌}
use test_lib.Connection.Inbound.{InboundMessageContext}
use test_lib.Storage.Service.{StorageService}
use test_lib.Storage.Repository
use test_lib.Storage.Repository.{Repo}
use test_lib.Storage.DidComm.{Stores}

-- `query: { connectionId, threadId }`, where `connectionId` may be undefined
pub record ThreadQuery : Type 0 where
  pub connection_id : Option String
  pub thread_id : String

-- A class of exchange records with their states.
pub record States (R St : Type 0) : Type 0 where
  pub state_of : R → St
  pub with_state : St → R → R
  pub state_of-with_state : (s : St) (r : R) → state_of (with_state s r) ≡ s

-- The event of a state change: a copy of the record, and the state before.
pub record StateChanged (R St : Type 0) : Type 0 where
  pub changed : R
  pub previous_state : Option St

-- The agent, as far as a protocol reaches it. The events of each emitter stand in their order.
pub record World (S R St MS X : Type 0) : Type 0 where
  pub records : Repo S R
  pub stores : Stores MS X
  pub events : List (StateChanged R St)

-- `connection?.id`
abbrev pub connection_id : {M : Type 0} → InboundMessageContext M → Option String
connection_id context = elim context.connection [
  | none ↦ none
  | some connection ↦ some connection.id
]

module _ {S R St MS X : Type 0} where
  abbrev pub on_stores : {A : Type 0} → Exec (Stores MS X) A → Exec (World S R St MS X) A
  on_stores = zoom (λ w. w.stores) (λ s w. record w { stores = s })

  abbrev pub on_records : {A : Type 0} → Exec (Repo S R) A → Exec (World S R St MS X) A
  on_records = zoom (λ w. w.records) (λ r w. record w { records = r })

  -- `emitStateChangedEvent`
  unfoldable pub emit_state_changed_event : R → Option St → Exec (World S R St MS X) Unit
  emit_state_changed_event r previous_state w = (
    ok tt,
    record w { events = w.events ++ record { changed = r; previous_state = previous_state } ∷ [] },
  )

module _ {S R Q St MS X : Type 0} (storage : StorageService S R Q) where
  -- `updateState`: the record in its new state, stored
  unfoldable pub update_state : States R St → R → St → Exec (World S R St MS X) R
  update_state states r new_state = do
    let r' = states.with_state new_state r
    on_records (Repository.update storage r')
    emit_state_changed_event r' (some (states.state_of r))
    pure r'

  -- `save` of the repository, and the event of a new record
  unfoldable pub save_new : R → Exec (World S R St MS X) Unit
  save_new r = do on_records (Repository.save storage r); emit_state_changed_event r none

module _ {S R St MS X : Type 0} (storage : StorageService S R ThreadQuery) where
  unfoldable pub find_by_thread_and_connection_id :
      String → Option String → Exec (World S R St MS X) (Option R)
  find_by_thread_and_connection_id thread_id connection_id = on_records (
      Repository.find_single_by_query storage
        (record { connection_id = connection_id; thread_id = thread_id }))

  unfoldable pub get_by_thread_and_connection_id :
      String → Option String → Exec (World S R St MS X) R
  get_by_thread_and_connection_id thread_id connection_id = on_records (
      Repository.get_single_by_query storage
        (record { connection_id = connection_id; thread_id = thread_id }))
