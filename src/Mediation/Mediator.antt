-- ===== src/Mediation/Mediator.antt =====
-- The methods of MediatorService.ts.
pub mod Forward
pub mod Uninitialised
use test_lib.Common.{
  String, Bool, true, false, Option, none, some, List, [], ◌∷◌, map, not, ◌==◌, if◌then◌else◌,
}
use test_lib.Exec.{
  Result, ok, Exec, aries_framework_error, throw, pure, lift, zoom, assert, ◌>>=◌, ◌>>◌,
}
use test_lib.Message.{thread_or_id}
use test_lib.Connection.Inbound.{InboundMessageContext, assert_ready_connection}
use test_lib.Storage.Repository
use test_lib.Storage.DidComm
use test_lib.Storage.DidComm.{Stores}
use test_lib.Exchange.{on_stores, on_records}
use test_lib.Mediation.Record.{
  MediationRecord, requested, granted, mediator, new_record, assert_ready, assert_state,
  assert_role,
}
use test_lib.Mediation.Keylist.{
  KeylistUpdate, KeylistUpdated, uses_did_key, process_updates, is_did_key,
}
use test_lib.Mediation.Base.{
  MediatorRoutingRecord, Rest, World, Config, update_state, save_new, get_by_connection_id,
  get_single_by_recipient_key, update_use_did_keys_flag,
}

pub record MediationRequestMessage : Type 0 where
  pub id : String
  pub thread : Option String

pub record MediationGrantMessage : Type 0 where
  pub id : String
  pub thread : Option String
  pub endpoint : Option String
  pub routing_keys : List String

pub record KeylistUpdateMessage : Type 0 where
  pub id : String
  pub thread : Option String
  pub updates : List KeylistUpdate

pub record KeylistUpdateResponseMessage : Type 0 where
  pub id : String
  pub thread : Option String
  pub updated : List KeylistUpdated

pub record ForwardMessage : Type 0 where
  pub to : String
  pub message : String

-- `config.endpoints[0]`
abbrev pub first_of : List String → Option String
first_of [] = none
first_of (endpoint ∷ _) = some endpoint

-- the protocol uri under which the flags for did keys stand
abbrev pub protocol_uri : String
protocol_uri = "https://didcomm.org/coordinate-mediation/1.0"

module _ {RS CS CQ KS KQ MS Y : Type 0} (config : Config RS CS CQ KS KQ MS Y) where
  open config use {
    mediation_storage, routing_storage, externals, from_did, to_did, use_did_key_in_protocols,
    endpoints,
  }

  unfoldable pub process_forward_message :
      ForwardMessage → Exec (World RS CS KS MS Y) (MediationRecord × String)
  process_forward_message message = do
    assert (not (message.to == "")) "Invalid Message: Missing required attribute \"to\""
    r ← get_single_by_recipient_key config message.to
    assert_ready r
    assert_role mediator r
    pure (r, message.message)

  unfoldable pub process_keylist_update_request :
      InboundMessageContext KeylistUpdateMessage
      → Exec (World RS CS KS MS Y) KeylistUpdateResponseMessage
  process_keylist_update_request context = do
    let message = context.message
    connection ← assert_ready_connection context
    r ← get_by_connection_id config connection.id
    assert_ready r
    assert_role mediator r
    update_use_did_keys_flag config connection protocol_uri
        (uses_did_key (map (λ (u : KeylistUpdate). u.recipient_key) message.updates))
    (keys, keylist) ← process_updates from_did message.updates r.recipient_keys
    on_records (Repository.update mediation_storage (record r { recipient_keys = keys }))
    id ← on_stores (DidComm.new_uuid externals)
    let response : KeylistUpdateResponseMessage = record {
      id = id;
      thread = some (thread_or_id message.thread message.id);
      updated = keylist;
    }
    pure response

  unfoldable pub process_mediation_request :
      InboundMessageContext MediationRequestMessage → Exec (World RS CS KS MS Y) MediationRecord
  process_mediation_request context = do
    let message = context.message
    connection ← assert_ready_connection context
    id ← on_stores (DidComm.new_uuid externals)
    let r = new_record id connection.id (thread_or_id message.thread message.id) requested mediator
    save_new config r
    pure r

  abbrev keys_of : Option MediatorRoutingRecord → Exec (Stores MS (Rest CS KS Y)) (List String)
  keys_of none = throw (aries_framework_error "Mediator has not been initialized yet.")
  keys_of (some r) = pure r.routing_keys

  unfoldable pub get_routing_keys : Exec (Stores MS (Rest CS KS Y)) (List String)
  get_routing_keys = do
    found ←
        zoom (λ s. s.rest.routing_records)
          (λ k s. record s { rest = record (s.rest) { routing_records = k } })
          (Repository.find_by_id routing_storage "MEDIATOR_ROUTING_RECORD")
    keys_of found

  -- `verkeyToDidKey`, whose encoder may throw
  abbrev pub verkey_to_did_key : String → Result String
  verkey_to_did_key key = if is_did_key key then ok key else to_did key

  unfoldable pub to_did_keys : {S : Type 0} → List String → Exec S (List String)
  unfolding is_did_key
  to_did_keys [] = pure []
  to_did_keys (key ∷ keys) = do
    did ← lift (verkey_to_did_key key)
    dids ← to_did_keys keys
    pure (did ∷ dids)

  abbrev as_configured : Bool → List String → Exec (World RS CS KS MS Y) (List String)
  as_configured true keys = to_did_keys keys
  as_configured false keys = pure keys

  -- The record is granted before the routing keys are read.
  unfoldable pub create_grant_mediation_message :
      MediationRecord → Exec (World RS CS KS MS Y) (MediationRecord × MediationGrantMessage)
  create_grant_mediation_message r = do
    assert_state requested r
    assert_role mediator r
    r' ← update_state config r granted
    keys ← on_stores get_routing_keys
    routing_keys ← as_configured use_did_key_in_protocols keys
    id ← on_stores (DidComm.new_uuid externals)
    let message : MediationGrantMessage = record {
      id = id;
      thread = some r.thread_id;
      endpoint = first_of endpoints;
      routing_keys = routing_keys;
    }
    pure (r', message)
