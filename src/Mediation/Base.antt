-- ===== src/Mediation/Base.antt =====
-- The state and the shared methods of MediatorService.ts and MediationRecipientService.ts.
use test_lib.Common.{String, Bool, Option, List, [], ◌∷◌, ◌==◌, refl, if◌then◌else◌}
use test_lib.Exec.{Result, Exec, zoom}
use test_lib.Connection.Record.{ConnectionRecord}
use test_lib.Storage.Service.{StorageService}
use test_lib.Storage.Repository
use test_lib.Storage.Repository.{Repo}
use test_lib.Storage.DidComm.{Stores, Externals}
use test_lib.Exchange
use test_lib.Exchange.{States, on_stores, on_records}
use test_lib.Mediation.Record.{MediationRecord, MediationState}
use test_lib.Mediation.Keylist.{KeylistUpdated}

-- The queries of MediationRepository.ts.
pub data MediationQuery : Type 0 where
  by_connection_id by_recipient_key : String → MediationQuery

-- the states of a mediation
abbrev pub mediation_states : States MediationRecord MediationState
mediation_states = record {
  state_of = λ r. r.state;
  with_state = λ s r. record r { state = s };
  state_of-with_state = λ s r. refl;
}

-- repository/MediatorRoutingRecord.ts
pub record MediatorRoutingRecord : Type 0 where
  pub id : String
  pub routing_keys : List String

-- The connections, the routing record of a mediator, the events `KeylistUpdatedEvent`, and
-- everything else.
pub record Rest (CS KS Y : Type 0) : Type 0 where
  pub connections : Repo CS ConnectionRecord
  pub routing_records : Repo KS MediatorRoutingRecord
  pub keylists_updated : List (MediationRecord × List KeylistUpdated)
  pub others : Y

abbrev pub World : Type 0 → Type 0 → Type 0 → Type 0 → Type 0 → Type 0
World RS CS KS MS Y = Exchange.World RS MediationRecord MediationState MS (Rest CS KS Y)

-- What the services are given: the storages, the uuids, the decoder and encoder of did keys, and the
-- configuration of the agent.
pub record Config (RS CS CQ KS KQ MS Y : Type 0) : Type 0 where
  pub mediation_storage : StorageService RS MediationRecord MediationQuery
  pub connection_storage : StorageService CS ConnectionRecord CQ
  pub routing_storage : StorageService KS MediatorRoutingRecord KQ
  pub externals : Externals MS (Rest CS KS Y)
  pub from_did : String → Result String
  pub to_did : String → Result String
  pub use_did_key_in_protocols : Bool
  pub endpoints : List String

-- `useDidKeysForProtocol[protocolUri] = connectionUsesDidKey`
unfoldable pub set_flag : String → Bool → List (String × Bool) → List (String × Bool)
set_flag protocol flag [] = (protocol, flag) ∷ []
set_flag protocol flag ((p, f) ∷ flags) =
    let rest = set_flag protocol flag flags in
    if p == protocol then (p, flag) ∷ flags else (p, f) ∷ rest

module _ {RS CS CQ KS KQ MS Y : Type 0} (config : Config RS CS CQ KS KQ MS Y) where
  open config use {mediation_storage, connection_storage}

  abbrev pub update_state :
      MediationRecord → MediationState → Exec (World RS CS KS MS Y) MediationRecord
  update_state = Exchange.update_state mediation_storage mediation_states

  abbrev pub save_new : MediationRecord → Exec (World RS CS KS MS Y) Unit
  save_new = Exchange.save_new mediation_storage

  -- `getByConnectionId` and `getSingleByRecipientKey` of MediationRepository.ts
  unfoldable pub get_by_connection_id : String → Exec (World RS CS KS MS Y) MediationRecord
  get_by_connection_id id =
      on_records (Repository.get_single_by_query mediation_storage (by_connection_id id))

  unfoldable pub get_single_by_recipient_key : String → Exec (World RS CS KS MS Y) MediationRecord
  get_single_by_recipient_key key =
      on_records (Repository.get_single_by_query mediation_storage (by_recipient_key key))

  unfoldable pub find_by_connection_id :
      String → Exec (World RS CS KS MS Y) (Option MediationRecord)
  find_by_connection_id id =
      on_records (Repository.find_single_by_query mediation_storage (by_connection_id id))

  -- `connectionService.update`
  unfoldable pub update_connection : ConnectionRecord → Exec (Stores MS (Rest CS KS Y)) Unit
  update_connection connection =
      zoom (λ s. s.rest.connections)
        (λ c s. record s { rest = record (s.rest) { connections = c } })
        (Repository.update connection_storage connection)

  -- `updateUseDidKeysFlag`
  unfoldable pub update_use_did_keys_flag :
      ConnectionRecord → String → Bool → Exec (World RS CS KS MS Y) Unit
  update_use_did_keys_flag connection protocol uses_did_key = on_stores (
      update_connection (record connection {
        use_did_keys_for_protocol =
            set_flag protocol uses_did_key connection.use_did_keys_for_protocol;
      }))
