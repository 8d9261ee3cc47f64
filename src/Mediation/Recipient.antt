-- ===== src/Mediation/Recipient.antt =====
-- The methods of MediationRecipientService.ts that keep the record of a mediation.
use test_lib.Common.{String, Option, none, some, List, [], ◌∷◌, ◌++◌, map}
use test_lib.Exec.{ok, Exec, external, throw, pure, lift, ◌>>=◌, ◌>>◌}
use test_lib.Connection.Record.{ConnectionRecord}
use test_lib.Connection.Inbound.{InboundMessageContext, assert_ready_connection}
use test_lib.Storage.Repository
use test_lib.Storage.DidComm
use test_lib.Exchange.{on_stores, on_records}
use test_lib.Mediation.Record.{
  MediationRecord, requested, granted, denied, recipient, new_record, assert_ready, assert_state,
  assert_role,
}
use test_lib.Mediation.Keylist.{KeylistUpdated, uses_did_key, process_results, did_key_to_verkey}
use test_lib.Mediation.Base.{
  World, Config, update_state, save_new, get_by_connection_id, find_by_connection_id,
  update_connection, update_use_did_keys_flag,
}
use test_lib.Mediation.Mediator.{
  MediationRequestMessage, MediationGrantMessage, KeylistUpdateResponseMessage, protocol_uri,
}

module _ {RS CS CQ KS KQ MS Y : Type 0} (config : Config RS CS CQ KS KQ MS Y) where
  open config use {mediation_storage, externals, from_did}

  -- `connectionService.addConnectionType(agentContext, connection, ConnectionType.Mediator)`
  unfoldable pub add_connection_type : ConnectionRecord → String → Exec (World RS CS KS MS Y) Unit
  add_connection_type connection connection_type = on_stores (
      update_connection config
        (record connection { connection_types = connection_type ∷ connection.connection_types }))

  unfoldable pub create_request :
      ConnectionRecord → Exec (World RS CS KS MS Y) (MediationRecord × MediationRequestMessage)
  create_request connection = do
    thread ← on_stores (DidComm.new_uuid externals)
    let message : MediationRequestMessage = record { id = thread; thread = none }
    id ← on_stores (DidComm.new_uuid externals)
    let r = new_record id connection.id thread requested recipient
    add_connection_type connection "mediator"
    save_new config r
    pure (r, message)

  -- `routingKeys.map(didKeyToVerkey)`
  unfoldable pub to_verkeys : {S : Type 0} → List String → Exec S (List String)
  unfolding did_key_to_verkey
  to_verkeys [] = pure []
  to_verkeys (key ∷ keys) = do
    verkey ← lift (did_key_to_verkey from_did key)
    verkeys ← to_verkeys keys
    pure (verkey ∷ verkeys)

  unfoldable pub process_mediation_grant :
      InboundMessageContext MediationGrantMessage → Exec (World RS CS KS MS Y) MediationRecord
  process_mediation_grant context = do
    let message = context.message
    connection ← assert_ready_connection context
    r ← get_by_connection_id config connection.id
    assert_state requested r
    assert_role recipient r
    update_use_did_keys_flag config connection protocol_uri (uses_did_key message.routing_keys)
    routing_keys ← to_verkeys message.routing_keys
    update_state config (record r { endpoint = message.endpoint; routing_keys = routing_keys })
        granted

  -- the event `KeylistUpdatedEvent`
  abbrev emit_keylist_updated :
      MediationRecord → List KeylistUpdated → Exec (World RS CS KS MS Y) Unit
  emit_keylist_updated r keylist = on_stores (λ s. (
    ok tt,
    record s {
      rest = record (s.rest) { keylists_updated = s.rest.keylists_updated ++ (r, keylist) ∷ [] };
    },
  ))

  unfoldable pub process_keylist_update_results :
      InboundMessageContext KeylistUpdateResponseMessage → Exec (World RS CS KS MS Y) Unit
  process_keylist_update_results context = do
    connection ← assert_ready_connection context
    r ← get_by_connection_id config connection.id
    assert_ready r
    assert_role recipient r
    let keylist = context.message.updated
    update_use_did_keys_flag config connection protocol_uri
        (uses_did_key (map (λ (u : KeylistUpdated). u.recipient_key) keylist))
    keys ← process_results from_did keylist r.recipient_keys
    let r' = record r { recipient_keys = keys }
    on_records (Repository.update mediation_storage r')
    emit_keylist_updated r' keylist

  abbrev pub deny_of : Option MediationRecord → Exec (World RS CS KS MS Y) MediationRecord
  deny_of none = throw (external "No mediation has been requested for this connection id")
  deny_of (some r) = do
    assert_role recipient r
    assert_state requested r
    update_state config r denied

  unfoldable pub process_mediation_deny :
      {M : Type 0} → InboundMessageContext M → Exec (World RS CS KS MS Y) MediationRecord
  process_mediation_deny context = do
    connection ← assert_ready_connection context
    r ← find_by_connection_id config connection.id
    deny_of r
